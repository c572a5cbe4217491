-- ===== src/Tests/Storage.antt =====
-- config.go, db/db.go and the instance's file at small contents.
use telephonist_agent.Base.{
  ℕ, ◌≡◌, ◌≢◌, refl, Bytes, codes, List, [], ◌∷◌, Bool, true, false, Option, none, some, inl,
}
use telephonist_agent.Errors.{Error, message}
use telephonist_agent.Config.{File, Json, loaded, load, write}
use telephonist_agent.Config.Saving.{load-write}
use telephonist_agent.Db.{Bolt, RecordJson}
use telephonist_agent.App.Instance.{IdFile}

-- Texts are taken as their own JSON.
abbrev plain : Json Bytes
plain = record { encode = λ v. inl v; decode = λ text old. inl text }

abbrev longer : File
longer = record {
  open_error = none;
  write_error = none;
  seek_error = none;
  content = some (codes "longer");
}

load-write_example : load plain [] (write plain (codes "x") longer).0 ≡ loaded (codes "x")
load-write_example = load-write plain (codes "x") [] (codes "x") longer refl refl refl refl refl

-- A transaction is the content and whether it may be changed.
abbrev refused : Bool → Option Error
refused true = none
refused false = some (message (codes "database or transaction is read-only"))

abbrev store : Bolt (List (Bytes × Bytes)) (List (Bytes × Bytes) × Bool)
store = record {
  begin_update = λ d. (d, true);
  begin_view = λ d. (d, false);
  create_bucket_if_not_exists = λ bucket tx. (tx, refused tx.1);
  has_bucket = λ bucket tx. true;
  put = λ bucket key text tx. (((key, text) ∷ tx.0, tx.1), refused tx.1);
  get = λ bucket key tx. none;
  entries = λ bucket tx. tx.0;
  commit = λ tx. (tx.0, none);
}

abbrev names : RecordJson
names = record {
  marshal = λ r. inl r.task_name;
  unmarshal = λ text r. inl (record r { task_name = text });
}

abbrev kept : List (Bytes × Bytes)
kept = (codes "1", codes "a") ∷ []

read_only : (bucket : Bytes) (d : List (Bytes × Bytes)) → refused false ≢ none
read_only bucket d e = cc

-- The text of a number is one byte.
abbrev first : Bytes → Option ℕ
first [] = none
first (c ∷ s) = some c

abbrev empty_file : IdFile
empty_file = record { read_error = none; is_writable = true; content = none }
