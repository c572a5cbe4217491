-- ===== src/Config/Saving.antt =====
-- config.go: what is written is read again.
use mathlib.Core.List.{append-nil}
use telephonist_agent.Base.{
  ◌≡◌, refl, sym, ap, ◌∙◌, Bytes, [], ◌∷◌, ◌++◌, Option, none, some, length, inl, arith,
}
use telephonist_agent.Config.{
  File, Json, loaded, drop, take, overwritten, load, write, load_or_create,
}

take-append : (xs ys : Bytes) → take (length xs) (xs ++ ys) ≡ xs
take-append [] ys = refl
take-append (x ∷ xs) ys = ap (λ zs. x ∷ zs) (take-append xs ys)

take-overwritten :
    (text : Bytes) (content : Option Bytes) → take (length text) (overwritten text content) ≡ text
take-overwritten text none = ap (take (length text)) (sym (append-nil text)) ∙ take-append text []
take-overwritten text (some content) = take-append text (drop (length text) content)

module _ {A : Type 0} (json : Json A) where
  -- When the file opens for writing, the value is encoded and the offset is found, the file holds the
  -- encoded text and nothing else, whatever it held before and if it held nothing.
  pub write-content :
      (value : A) (text : Bytes) (f : File)
      → f.write_error ≡ none
      → f.seek_error ≡ none
      → json.encode value ≡ inl text
      → write json value f ≡ (record f { content = some text }, none)
  unfolding write
  write-content value text f opens seeks encodes = ground (arith, take-overwritten text f.content)

  -- When the file opens for reading and for writing, its offset is found, and the value's text decodes
  -- to the value whatever it is decoded into, `Load` after `Write` gives the value.
  pub load-write :
      (value ptr : A) (text : Bytes) (f : File)
      → f.open_error ≡ none
      → f.write_error ≡ none
      → f.seek_error ≡ none
      → json.encode value ≡ inl text
      → json.decode text ptr ≡ inl value
      → load json ptr (write json value f).0 ≡ loaded value
  unfolding load
  load-write value ptr text f reads opens seeks encodes decodes =
      ground (arith, write-content value text f opens seeks encodes)

  -- Under the same conditions, a call of `LoadOrCreate` without an error gives the value that a second
  -- call then reads, which changes neither the file nor the value.
  pub load_or_create-again :
      (ptr again : A) (text : Bytes) (f : File)
      → f.open_error ≡ none
      → f.write_error ≡ none
      → f.seek_error ≡ none
      → f.content ≡ none
      → json.encode ptr ≡ inl text
      → json.decode text again ≡ inl ptr
      → let r = load_or_create json ptr f in
        (r.2 ≡ none) × (load_or_create json again r.1 ≡ (ptr, r.1, none))
  unfolding load_or_create load
  load_or_create-again ptr again text f reads opens seeks empty encodes decodes =
      ground (arith, write-content ptr text f opens seeks encodes)
