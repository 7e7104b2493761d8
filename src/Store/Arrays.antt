-- ===== src/Store/Arrays.antt =====
-- The data store of src/audioneex.h that keeps its lists as they are, which meets its laws.
use audioneex.Prelude.{ℕ, refl, [], ◌∷◌, ◌++◌, ◌==◌, if◌then◌else◌}
use audioneex.Store.{DataStore, DataStoreLaws, StoredList, append_chunk, header_at, body_at}

abbrev pub array_store : DataStore
array_store = record {
  State = ℕ → StoredList;
  on_indexer_start = λ d. d;
  on_indexer_end = λ d. d;
  on_indexer_flush_start = λ d. d;
  on_indexer_flush_end = λ d. d;
  on_indexer_list_header = λ t d. (d t).header;
  on_indexer_block_header = λ t i d. header_at (d t).blocks i;
  on_indexer_chunk = λ t lhdr hdr chunk d u.
      if u == t
      then record { header = lhdr; blocks = append_chunk hdr chunk (d t).blocks }
      else d u;
  on_indexer_new_block = λ t lhdr hdr chunk d u.
      if u == t
      then record {
        header = lhdr;
        blocks = (d t).blocks ++ (record { header = hdr; body = chunk } ∷ []);
      }
      else d u;
  on_indexer_fingerprint = λ fid bytes d. d;
  get_plist_block = λ t i d. body_at (d t).blocks i;
}

abbrev pub array_laws : DataStoreLaws array_store
array_laws = record {
  lists = λ t d. d t;
  list_header_lem = λ t d. refl;
  block_header_lem = λ t i d. refl;
  plist_block_lem = λ t i d. refl;
  chunk_lem = λ t u lhdr hdr chunk d. refl;
  new_block_lem = λ t u lhdr hdr chunk d. refl;
  flush_start_lem = λ u d. refl;
  flush_end_lem = λ u d. refl;
}
