-- ===== src/Db.antt =====
-- db/db.go and db/records.go: the local database of sequences, over a store of
-- github.com/etcd-io/bbolt.
pub mod Sequences
use telephonist_agent.Base.{
  ℕ, Bytes, codes, List, [], ◌∷◌, Bool, true, false, Option, none, some, ◌⊎◌, inl, inr,
}
use telephonist_agent.Errors.{Error}

-- `SequenceDBRecord`
pub record SequenceDbRecord : Type 0 where
  pub task_id : ℕ
  pub task_name : Bytes
  pub state : Bytes
  pub only_local : Bool
  pub backend_id : Bytes

-- A transaction `T` on a store `D`. A bucket that is there is known by its name.
pub record Bolt (D T : Type 0) : Type 0 where
  pub begin_update : D → T
  pub begin_view : D → T
  pub create_bucket_if_not_exists : Bytes → T → T × Option Error
  pub has_bucket : Bytes → T → Bool
  pub put : Bytes → Bytes → Bytes → T → T × Option Error
  pub get : Bytes → Bytes → T → Option Bytes
  pub entries : Bytes → T → List (Bytes × Bytes)  -- in the order of `ForEach`
  pub commit : T → D × Option Error

-- JSON of a record; `unmarshal` writes into a record that is there.
pub record RecordJson : Type 0 where
  pub marshal : SequenceDbRecord → Bytes ⊎ Error
  pub unmarshal : Bytes → SequenceDbRecord → SequenceDbRecord ⊎ Error

abbrev pub seq : Bytes
seq = codes "seq"

pub empty_record : SequenceDbRecord
empty_record = record {
  task_id = 0;
  task_name = [];
  state = [];
  only_local = false;
  backend_id = [];
}

module _ {D T : Type 0} (bolt : Bolt D T) (json : RecordJson) where
  -- The function that `putJSON` gives to `Update`.
  put_in : Bytes → Bytes → Bytes → T → T × Option Error
  put_in bucket id text tx =
      let (tx', err) = bolt.create_bucket_if_not_exists bucket tx in
      elim err [ some x ↦ (tx', some x) | none ↦ bolt.put bucket id text tx' ]

  -- `Update`: an error of the function rolls the transaction back.
  updated : D → T × Option Error → D × Option Error
  updated d (tx, some err) = (d, some err)
  updated d (tx, none) = bolt.commit tx

  -- `putJSON`
  unfoldable pub put_json : Bytes → Bytes → SequenceDbRecord → D → D × Option Error
  unfolding put_in updated
  put_json bucket id r d = elim (json.marshal r) [
    | inr err ↦ (d, some err)
    | inl text ↦ updated d (put_in bucket id text (bolt.begin_update d))
  ]

  -- What `getJSON` makes of the value under the key.
  value_of : SequenceDbRecord → Option Bytes → Option SequenceDbRecord ⊎ Error
  value_of ptr none = inl none
  value_of ptr (some text) = elim (json.unmarshal text ptr) [
    | inl r ↦ inl (some r)
    | inr err ↦ inr err
  ]

  -- `getJSON` of a record, which creates its bucket in a transaction that `View` gives.
  unfoldable pub get_json : Bytes → Bytes → SequenceDbRecord → D → Option SequenceDbRecord ⊎ Error
  unfolding value_of
  get_json bucket id ptr d =
      let (tx, err) = bolt.create_bucket_if_not_exists bucket (bolt.begin_view d) in
      elim err [ some x ↦ inr x | none ↦ value_of ptr (bolt.get bucket id tx) ]

  -- `GetSequence`
  unfoldable pub get_sequence : Bytes → D → Option SequenceDbRecord ⊎ Error
  unfolding empty_record
  get_sequence id d = get_json seq id empty_record d

  -- `PutSequence`
  unfoldable pub put_sequence : Bytes → SequenceDbRecord → D → D × Option Error
  put_sequence id r d = put_json seq id r d

  changed : D × Option Error → D × Bool × Option Error
  changed (d, err) = (d, true, err)

  -- `UpdateSequence`
  unfoldable pub update_sequence :
      Bytes → (SequenceDbRecord → SequenceDbRecord) → D → D × Bool × Option Error
  unfolding changed
  update_sequence id update d = elim (get_sequence id d) [
    | inr err ↦ (d, false, some err)
    | inl none ↦ (d, false, none)
    | inl (some r) ↦ changed (put_sequence id (update r) d)
  ]

  -- The loop of `ForEach`, which ends at the first value that is not decoded. Each value is decoded
  -- into the record of the one before it.
  unfoldable pub each_record :
      SequenceDbRecord → List (Bytes × Bytes) → List (Bytes × SequenceDbRecord)
  each_record r [] = []
  each_record r ((key, text) ∷ rest) = elim (json.unmarshal text r) [
    | inr err ↦ []
    | inl r' ↦ (key, r') ∷ each_record r' rest
  ]

  -- `mapRecordsUtil`: the calls of `iteration`.
  unfoldable pub map_records : Bytes → D → List (Bytes × SequenceDbRecord)
  unfolding each_record empty_record
  map_records bucket d = elim (bolt.has_bucket bucket (bolt.begin_view d)) [
    | false ↦ []
    | true ↦ each_record empty_record (bolt.entries bucket (bolt.begin_view d))
  ]

  -- `IterateSequences`
  unfoldable pub iterate_sequences : D → List (Bytes × SequenceDbRecord)
  iterate_sequences d = map_records seq d

  local_only : List (Bytes × SequenceDbRecord) → List SequenceDbRecord
  local_only [] = []
  local_only ((key, r) ∷ rest) =
      let more = local_only rest in elim r.only_local [ true ↦ r ∷ more | false ↦ more ]

  -- `FindLocalOnlySequences`
  unfoldable pub find_local_only_sequences : D → List SequenceDbRecord
  unfolding local_only
  find_local_only_sequences d = local_only (iterate_sequences d)
