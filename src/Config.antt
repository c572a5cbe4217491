-- ===== src/Config.antt =====
-- config.go: a configuration file, which holds one value as JSON.
pub mod Saving
use telephonist_agent.Base.{
  ℕ, zero, suc, Bytes, [], ◌∷◌, ◌++◌, Option, none, some, length, ◌⊎◌, inl, inr,
}
use telephonist_agent.Errors.{Error}

-- The file at the path: what opening it for reading and for writing fails with, and its content if
-- it is there. `seek_error` is what a seek to the current offset fails with.
pub record File : Type 0 where
  pub open_error : Option Error
  pub write_error : Option Error
  pub seek_error : Option Error
  pub content : Option Bytes

-- JSON of the values of one type: `Encode` with an indent of four spaces, and `Decode` of the first
-- value of a text into a value that is there.
pub record Json (A : Type 0) : Type 0 where
  pub encode : A → Bytes ⊎ Error
  pub decode : Bytes → A → A ⊎ Error

-- What a read of a file comes to: the value as it is left, and the error.
pub data Loaded (A : Type 0) : Type 0 where
  loaded : A → Loaded A
  not_exist : Loaded A  -- an error of which `os.IsNotExist` holds
  failed : Error → Loaded A

abbrev pub drop : ℕ → Bytes → Bytes
drop zero xs = xs
drop (suc n) [] = []
drop (suc n) (x ∷ xs) = drop n xs

abbrev pub take : ℕ → Bytes → Bytes
take zero xs = []
take (suc n) [] = []
take (suc n) (x ∷ xs) = x ∷ take n xs

-- A file after `text` is written at its start.
abbrev pub overwritten : Bytes → Option Bytes → Bytes
overwritten text none = text
overwritten text (some content) = text ++ drop (length text) content

module _ {A : Type 0} (json : Json A) where
  -- What the decoder makes of an open file.
  unfoldable pub read_into : A → Bytes → Loaded A
  read_into ptr content = elim (json.decode content ptr) [
    | inl value ↦ loaded value
    | inr err ↦ failed err
  ]

  -- `Load`
  unfoldable pub load : A → File → Loaded A
  unfolding read_into
  load ptr f = elim f.content [
    | none ↦ not_exist
    | some content ↦ elim f.open_error [ some err ↦ failed err | none ↦ read_into ptr content ]
  ]

  -- The seek and the truncation at the offset that the encoder left.
  unfoldable pub cut_off : Bytes → Bytes → File → File × Option Error
  cut_off text content f = elim f.seek_error [
    | some err ↦ (record f { content = some content }, some err)
    | none ↦ (record f { content = some (take (length text) content) }, none)
  ]

  -- An opened file, which `O_CREATE` made if it was not there.
  unfoldable pub write_into : A → File → File × Option Error
  unfolding cut_off
  write_into value f = elim (json.encode value) [
    | inr err ↦ (record f { content = some (overwritten [] f.content) }, none)
    | inl text ↦ cut_off text (overwritten text f.content) f
  ]

  -- `Write`, which reports no error of the encoder.
  unfoldable pub write : A → File → File × Option Error
  unfolding write_into
  write value f = elim f.write_error [ some err ↦ (f, some err) | none ↦ write_into value f ]

  -- `LoadOrCreate`: the value, the file and the error.
  unfoldable pub load_or_create : A → File → A × File × Option Error
  unfolding load write
  load_or_create ptr f = elim (load ptr f) [
    | loaded value ↦ (value, f, none)
    | failed err ↦ (ptr, f, some err)
    | not_exist ↦ let (f', err) = write ptr f in (ptr, f', err)
  ]
