-- ===== src/Packed/Format.antt =====
-- The packed format: which bytes stand for which words. Any encoder may choose the lengths of its
-- runs; capnproto/doc/encoding.md describes the format.
pub mod Tags
use capnp_import.Common.{
  ℕ, suc, ◌+◌, ◌^◌, ◌≤◌, ◌≡◌, ◌≢◌, List, [], ◌∷◌, ◌++◌, length, replicate, ◌==◌, if◌then◌else◌,
}
use capnp_import.Packed.{Word, bytes_of, bytes_of_words}

-- The bytes that are not zero.
abbrev pub squeeze : List ℕ → List ℕ
squeeze [] = []
squeeze (b ∷ bytes) = if b == 0 then squeeze bytes else b ∷ squeeze bytes

-- The bits of a tag from the `i`th on: the bit `i` is set when the `i`th byte is not zero.
abbrev pub tag_bits : ℕ → List ℕ → ℕ
tag_bits i [] = 0
tag_bits i (b ∷ bytes) = (if b == 0 then 0 else 2 ^ i) + tag_bits (suc i) bytes

-- The tag that the format asks for, written apart from the code of the writer and of the readers.
unfoldable pub format_tag : Word → ℕ
format_tag w = tag_bits 0 (bytes_of w)

abbrev pub zero_word : Word
zero_word = record { b0 = 0; b1 = 0; b2 = 0; b3 = 0; b4 = 0; b5 = 0; b6 = 0; b7 = 0 }

pub data Packed : List Word → List ℕ → Type 0 where
  nothing : Packed [] []
  plain :
      (w : Word) {words : List Word} {bytes : List ℕ}
      → format_tag w ≢ 0
      → format_tag w ≢ 0xff
      → Packed words bytes
      → Packed (w ∷ words) (format_tag w ∷ (squeeze (bytes_of w) ++ bytes))
  zeros :
      (n : ℕ) {words : List Word} {bytes : List ℕ}
      → n ≤ 255
      → Packed words bytes
      → Packed (zero_word ∷ (replicate n zero_word ++ words)) (0 ∷ n ∷ bytes)
  verbatim :
      (w : Word) (run : List Word) {words : List Word} {bytes : List ℕ}
      → format_tag w ≡ 0xff
      → length run ≤ 255
      → Packed words bytes
      → Packed
          (w ∷ (run ++ words))
          (0xff ∷ (bytes_of w ++ (length run ∷ (bytes_of_words run ++ bytes))))
