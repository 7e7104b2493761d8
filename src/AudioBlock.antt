-- ===== src/AudioBlock.antt =====
-- AudioBlock (src/audio/AudioBlock.h): samples in a buffer of fixed capacity.
pub mod Samples
pub mod Replace
use audioneex.Prelude.{
  ℕ, zero, suc, ◌+◌, ◌-◌, ◌*◌, ◌%◌, List, [], ◌∷◌, ◌++◌, Bool, true, false, ◌==◌, ◌||◌, not, ltb,
  leb, if◌then◌else◌, Option, none, some, Outcome, ok, fault, ◌>>=◌, length, take, drop, replicate,
  min, sub64,
}

-- The arithmetic of `float` that blocks and terms use. An int is its 32-bit pattern: `of_bits` converts
-- one, and `to_bits` rounds towards zero.
pub record FloatOps (F : Type 0) : Type 0 where
  pub of_size : ℕ → F
  pub of_bits : ℕ → F
  pub to_bits : F → ℕ
  pub to_size : F → ℕ
  pub add : F → F → F
  pub sub : F → F → F
  pub mul : F → F → F
  pub div : F → F → F
  pub at_most : F → F → Bool
  pub less : F → F → Bool

-- The samples are of type A. `data` is `none` for a null pointer, and `size` samples of it are
-- available.
pub record AudioBlock (F : Type 0) (A : Type 0) : Type 0 where
  pub samples : Option (List A)
  pub capacity : ℕ
  pub duration : F
  pub size : ℕ
  pub sample_rate : F
  pub channels : ℕ
  pub id : ℕ
  pub timestamp : ℕ
  pub norm_factor : F

-- std::copy of the first `n` elements of `from`, and of a range to the offset `off` of `to`; outside of
-- an array it is undefined.
unfoldable pub read : {A : Type 0} → ℕ → List A → Outcome (List A)
read n from = if leb n (length from) then ok (take n from) else fault

unfoldable pub copy_to : {A : Type 0} → List A → ℕ → List A → Outcome (List A)
copy_to from off to =
    if leb (off + length from) (length to)
    then ok (take off to ++ (from ++ drop (off + length from) to))
    else fault

abbrev pub seconds : {F : Type 0} → FloatOps F → ℕ → ℕ → F → F
seconds f n nchans rate = f.div (f.of_size n) (f.mul (f.of_size nchans) rate)

-- The number of samples that `Create` makes room for.
unfoldable pub whole_frames : ℕ → ℕ → ℕ
whole_frames nsamples nchans =
    let dn = nsamples % nchans in if dn == 0 then nsamples else nsamples - dn + nchans

module _ {F A : Type 0} (f : FloatOps F) where
  -- mData.get(), where it is read or written.
  unfoldable pub data_of : AudioBlock F A → Outcome (List A)
  data_of b = elim b.samples [ none ↦ fault | some d ↦ ok d ]

  unfoldable pub is_null : AudioBlock F A → Bool
  is_null b = elim b.samples [ none ↦ true | some _ ↦ false ]

  -- `init_size` is `none` where the source's argument is negative. `silence` is (T)0. A remainder by no
  -- channels is undefined.
  unfoldable pub create : A → ℕ → F → ℕ → Option ℕ → AudioBlock F A → Outcome (AudioBlock F A)
  unfolding is_null whole_frames
  create silence nsamples rate nchans init_size b =
      let n = whole_frames nsamples nchans in
      let wanted : ℕ = elim init_size [ none ↦ n | some k ↦ k ] in
      let size : ℕ = if ltb n wanted then n else wanted in
      if not (is_null b)
      then ok b
      else if nchans == 0
      then fault
      else ok (record b {
        samples = some (replicate n silence);
        capacity = n;
        duration = seconds f size nchans rate;
        size = size;
        sample_rate = rate;
        channels = nchans;
      })

  -- The copy constructor.
  unfoldable pub copy : AudioBlock F A → Outcome (AudioBlock F A)
  unfolding read data_of
  copy b =
      let copied : Outcome (AudioBlock F A) = do
        d ← data_of b
        d' ← read b.capacity d
        ok (record b { samples = some d'; id = 0 })
      in if b.capacity == 0 then ok (record b { samples = none; id = 0 }) else copied

  -- operator=, which takes its argument by value: `Swap` leaves the identifier of the block alone.
  unfoldable pub assign : AudioBlock F A → AudioBlock F A → Outcome (AudioBlock F A)
  unfolding copy
  assign this block = do b ← copy block; ok (record b { id = this.id })

  unfoldable pub resize : ℕ → AudioBlock F A → AudioBlock F A
  resize newsize b =
      let n : ℕ = if ltb b.capacity newsize then b.capacity else newsize in
      record b { size = n; duration = seconds f n b.channels b.sample_rate }

  unfoldable pub set_data : List A → ℕ → AudioBlock F A → Outcome (AudioBlock F A)
  unfolding resize data_of read copy_to
  set_data from nsamples b = do
    let b' : AudioBlock F A = if nsamples == b.size then b else resize nsamples b
    xs ← read b'.size from
    d ← data_of b'
    d' ← copy_to xs 0 d
    ok (record b' { samples = some d' })

  unfoldable pub do_append : List A → ℕ → AudioBlock F A → Outcome (AudioBlock F A)
  unfolding resize data_of read copy_to
  do_append from nsamples b =
      let room = sub64 b.capacity b.size in
      let copyable : ℕ = if leb nsamples room then nsamples else room in
      let appended : Outcome (AudioBlock F A) = do
        xs ← read copyable from
        d ← data_of b
        d' ← copy_to xs b.size d
        ok (resize (b.size + copyable) (record b { samples = some d' }))
      in if room == 0 then ok b else appended

  -- The two overloads of `Append`; a null pointer is `none`.
  unfoldable pub append_data : Option (List A) → ℕ → AudioBlock F A → Outcome (AudioBlock F A)
  unfolding do_append
  append_data none nsamples b = ok b
  append_data (some from) nsamples b = if nsamples == 0 then ok b else do_append from nsamples b

  unfoldable pub append_block : AudioBlock F A → AudioBlock F A → Outcome (AudioBlock F A)
  unfolding append_data
  append_block block b = append_data block.samples block.size b

  -- `GetSubBlock` gives the block that it writes to.
  unfoldable pub get_sub_block : ℕ → ℕ → AudioBlock F A → AudioBlock F A → Outcome (AudioBlock F A)
  unfolding is_null resize data_of read copy_to
  get_sub_block start size b block =
      let sbsize = min size (b.size - start) in
      let copied : Outcome (AudioBlock F A) = do
        d ← data_of b
        xs ← read sbsize (drop start d)
        e ← data_of block
        e' ← copy_to xs 0 e
        ok (resize sbsize (record block { samples = some e' }))
      in if is_null b || is_null block || not (ltb start b.size)
        then ok (resize 0 block)
        else copied
