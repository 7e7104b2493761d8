-- ===== src/Tests/Sessions.antt =====
-- The ring buffer, the audio block, an indexing session and the classifier on small inputs.
use audioneex.Prelude.{
  ℕ, ◌≡◌, refl, ◌+◌, ◌-◌, ◌*◌, ◌%◌, ◌∷◌, ◌++◌, [], List, arith, All, length, take, ok, err, true,
  none, some, invalid_fingerprint,
}
use audioneex.Ring.{RingBuffer, push, pull}
use audioneex.Ring.Fifo.{IsRing, queue, write, at, first, finished, push-queue, pull-queue}
use audioneex.AudioBlock.{AudioBlock, append_data, set_data}
use audioneex.AudioBlock.Replace.{set_data-Has}
use audioneex.AudioBlock.Samples.{Has, append_data-Has}
use audioneex.Cache.{IndexCache, new_cache, reset}
use audioneex.Cache.View.{IsCache, reset-IsCache}
use audioneex.Indexer.{
  Indexer, Extractor, Answer, index_data, index, fingerprint_audio, flush_if_full,
}
use audioneex.Indexer.Fingerprints.{Qlf, IsQlf, bytes_of}
use audioneex.Indexer.Terms.{MatchType, index_terms}
use audioneex.Indexer.Sound.{index_terms-IsCache}
use audioneex.Indexer.Session.{index-index_data, index_data-Holds, index_data-stale}
use audioneex.Indexer.Elements.{elements}
use audioneex.Indexer.Added.{Holds, added, reset-Holds}
use audioneex.Flush.Blocks.{list_of}
use audioneex.Classifier.{Classifier}
use audioneex.Store.Arrays.{array_store}
use audioneex.Tests.{nat_floats}

-- A ring of three slots that has wrapped around once.
abbrev ring : RingBuffer ℕ
ring = record {
  buffer = some (0 ∷ 0 ∷ 0 ∷ []);
  size = 3;
  consumed = 2;
  produced = 4;
  consume_done = true;
}

ring-IsRing : IsRing ring
ring-IsRing = record {
  size_pos = omega arith;
  size_fits = omega arith;
  ordered = omega arith;
  bounded = omega arith;
  no_wrap = omega arith;
  consuming = λ e. omega arith;
}

push-queue_example :
    ((push ring).1 ≡ some (4 % 3))
    × IsRing (push ring).0
    × (queue (write (λ i. i) (4 % 3) 99) (push ring).0 ≡ queue (λ i. i) ring ++ (99 ∷ []))
push-queue_example = push-queue ring (λ i. i) 99 ring-IsRing (omega arith) (omega arith)

pull-queue_example :
    IsRing (pull ring).0
    × (queue (λ i. i) (pull ring).0 ≡ finished ring (queue (λ i. i) ring))
    × (at (λ i. i) (pull ring).1 ≡ first (finished ring (queue (λ i. i) ring)))
pull-queue_example = pull-queue ring (λ i. i) ring-IsRing

-- Two of four samples are available.
abbrev half_full : AudioBlock ℕ ℕ
half_full = record {
  samples = some (1 ∷ 2 ∷ 0 ∷ 0 ∷ []);
  capacity = 4;
  duration = 2;
  size = 2;
  sample_rate = 1;
  channels = 1;
  id = 0;
  timestamp = 0;
  norm_factor = 1;
}

half_full-Has : Has nat_floats half_full (1 ∷ 2 ∷ [])
half_full-Has = record {
  behind = 0 ∷ 0 ∷ [];
  data_is = refl;
  capacity_is = refl;
  size_is = refl;
  duration_is = refl;
}

append_data-Has_example :
    (b : AudioBlock ℕ ℕ) × (append_data nat_floats
        (some (3 ∷ 4 ∷ 5 ∷ []))
        (length {A = ℕ} (3 ∷ 4 ∷ 5 ∷ []))
        half_full
      ≡ ok b)
    × Has nat_floats b ((1 ∷ 2 ∷ []) ++ take (4 - 2) (3 ∷ 4 ∷ 5 ∷ []))
append_data-Has_example =
    append_data-Has nat_floats half_full (1 ∷ 2 ∷ []) (3 ∷ 4 ∷ 5 ∷ []) half_full-Has (omega arith)

set_data-Has_example :
    (b : AudioBlock ℕ ℕ) × (set_data nat_floats
        (3 ∷ 4 ∷ 5 ∷ 6 ∷ 7 ∷ [])
        (length {A = ℕ} (3 ∷ 4 ∷ 5 ∷ 6 ∷ 7 ∷ []))
        half_full
      ≡ ok b)
    × Has nat_floats b (take 4 (3 ∷ 4 ∷ 5 ∷ 6 ∷ 7 ∷ []))
set_data-Has_example =
    set_data-Has nat_floats half_full (1 ∷ 2 ∷ []) (3 ∷ 4 ∷ 5 ∷ 6 ∷ 7 ∷ []) half_full-Has

abbrev qlfs : List Qlf
qlfs =
    record { t = 70000; f = 300; w = 12; e = 3 } ∷ record { t = 70010; f = 310; w = 99; e = 0 } ∷ []

qlfs-IsQlf : All IsQlf qlfs
qlfs-IsQlf = (
  record { t_fits = omega arith; f_fits = omega arith; w_fits = omega arith; e_fits = omega arith },
  (
    record {
      t_fits = omega arith;
      f_fits = omega arith;
      w_fits = omega arith;
      e_fits = omega arith;
    },
    tt,
  ),
)

index_terms-IsCache_example :
    (c : IndexCache) × (index_terms nat_floats 40 MatchType.xscale_match 5 qlfs (reset new_cache)
      ≡ ok c)
    × IsCache 5 (0 + 60 * length qlfs) c
index_terms-IsCache_example =
    index_terms-IsCache nat_floats 40 MatchType.xscale_match 5 0 0 qlfs (reset new_cache)
      (reset-IsCache new_cache) (omega arith) (omega arith)

abbrev no_audio : Extractor ℕ
no_audio = record {
  Codes = ℕ;
  Engine = ℕ;
  deserialize = none;
  new_engine = λ n. n;
  process = λ codes b fp. (fp, []);
}

abbrev session : Indexer nat_floats no_audio array_store 40
session = record {
  store = some (λ t. list_of []);
  answers = none;
  match_type = MatchType.xscale_match;
  audio_codes = none;
  cache = reset new_cache;
  curr_fid = 0;
  session_open = true;
}

index_data-stale_example :
    index_data nat_floats no_audio array_store 40 0 (some (bytes_of qlfs)) session
    ≡ err invalid_fingerprint
index_data-stale_example =
    index_data-stale nat_floats no_audio array_store 40 0 (some (bytes_of qlfs)) session refl
      (omega arith)

abbrev pub cuts : Classifier ℕ
cuts = record {
  conf = record {
    low = record { x1 = 0; x2 = 2; x3 = 4 };
    med = record { x1 = 3; x2 = 5; x3 = 7 };
    high = record { x1 = 6; x2 = 8; x3 = 9 };
  };
  cdur = record {
    low = record { x1 = 0; x2 = 2; x3 = 4 };
    med = record { x1 = 3; x2 = 5; x3 = 7 };
    high = record { x1 = 6; x2 = 8; x3 = 9 };
  };
}

index_data-Holds_example :
    (cache : IndexCache) × (index_data nat_floats no_audio array_store 40 5
        (some (bytes_of qlfs))
        session
      ≡ flush_if_full nat_floats no_audio array_store 40
          (record session { curr_fid = 5; cache = cache }))
    × Holds 5
        (0 + 60 * length qlfs)
        cache
        (λ t. added 5 t (elements nat_floats MatchType.xscale_match qlfs) [])
index_data-Holds_example =
    index_data-Holds nat_floats no_audio array_store 40 5 0 qlfs (λ t. []) session refl
      (omega arith) qlfs-IsQlf (omega arith) (reset-Holds new_cache) (omega arith)

-- A recording of two samples, in which the two fingerprints are found.
abbrev found : Extractor ℕ
found = record no_audio { process = λ codes b fp. (fp, qlfs) }

abbrev recording : List (Answer ℕ)
recording = Answer.samples (3 ∷ 4 ∷ []) 2 ∷ Answer.samples [] 0 ∷ []

abbrev listening : Indexer nat_floats found array_store 40
listening = record {
  store = some (λ t. list_of []);
  answers = some recording;
  match_type = MatchType.xscale_match;
  audio_codes = some 0;
  cache = reset new_cache;
  curr_fid = 0;
  session_open = true;
}

-- The blocks of the loop are not null here, which keeps them as small as they are.
recorded : fingerprint_audio nat_floats found array_store 40 0 recording half_full ≡ ok ([], qlfs)
unfolding fingerprint_audio
recorded = refl

index-index_data_example :
    index nat_floats found array_store 40 half_full 5 listening
    ≡ index_data nat_floats found array_store 40 5 (some (bytes_of qlfs)) (record listening {
      answers = some [];
      store = some (array_store.on_indexer_fingerprint 5 (bytes_of qlfs) (λ t. list_of []));
    })
index-index_data_example =
    index-index_data nat_floats found array_store 40 half_full 5 (λ t. list_of []) 0 recording []
      qlfs listening refl refl refl refl recorded (omega arith) qlfs-IsQlf (omega arith)
