-- ===== src/Build/Memory.antt =====
-- The words of a message that is built: what a builder stores through pointers into its segments.
pub mod Laws
pub mod Arenas
use capnp_import.Common.{ℕ, zero, suc, List, [], ◌∷◌, ◌++◌, length, get_elem?, Option, none, some}
use capnp_import.Serialize.{Word, Segment}
use capnp_import.Build.{SegmentBuilder, BuilderArena, and_then}

abbrev pub modify_at {ℓ} : {A : Type ℓ} → ℕ → (A → A) → List A → List A
modify_at i f [] = []
modify_at zero f (x ∷ xs) = f x ∷ xs
modify_at (suc i) f (x ∷ xs) = x ∷ modify_at i f xs

-- The word of a segment at a position; `none` is no word of the segment.
abbrev pub read_word : BuilderArena → ℕ → ℕ → Option Word
read_word a id pos = and_then (get_elem? a.segments id) λ s. get_elem? s.words pos

abbrev pub modify_word : ℕ → ℕ → (Word → Word) → BuilderArena → BuilderArena
modify_word id pos f a = record a {
  segments = modify_at id (λ s. record s { words = modify_at pos f s.words }) a.segments;
}

abbrev pub set_low : ℕ → ℕ → ℕ → BuilderArena → BuilderArena
set_low id pos low = modify_word id pos (λ w. record w { low = low })

abbrev pub set_high : ℕ → ℕ → ℕ → BuilderArena → BuilderArena
set_high id pos high = modify_word id pos (λ w. record w { high = high })

abbrev pub set_word : ℕ → ℕ → Word → BuilderArena → BuilderArena
set_word id pos w = modify_word id pos (λ _. w)

-- The same in what the message outputs.
abbrev pub get_word : List Segment → ℕ → ℕ → Option Word
get_word message id pos = and_then (get_elem? message id) λ s. get_elem? s pos

abbrev pub poke : ℕ → ℕ → (Word → Word) → List Segment → List Segment
poke id pos f message = modify_at id (modify_at pos f) message

abbrev pub segment_length : List Segment → ℕ → ℕ
segment_length [] id = 0
segment_length (s ∷ message) zero = length s
segment_length (s ∷ message) (suc id) = segment_length message id

-- The words of a segment of a message.
abbrev pub segment_of : List Segment → ℕ → Segment
segment_of [] id = []
segment_of (s ∷ message) zero = s
segment_of (s ∷ message) (suc id) = segment_of message id
