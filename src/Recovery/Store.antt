-- ===== src/Recovery/Store.antt =====
-- internal/recovery/checkpoint.go, `FileStore`: the changes of files that `Save` makes, one after
-- another, so that a crash leaves what a first part of them has made. The operating system's answers
-- and the JSON codec are parameters.
pub mod Changes
pub mod Refines
use agents_coworkers.Prelude.{
  String, Option, none, some, List, [], ◌∷◌, ◌++◌, Bool, if◌then◌else◌, ◌==◌,
}
use agents_coworkers.Recovery.Errors.{Error, other, Result, ok, err}
use agents_coworkers.Recovery.Checkpoint.{Checkpoint, validate}
use agents_coworkers.Recovery.Lease.{Dir, write}

pub data FileChange : Type 0 where
  created removed : String → FileChange
  -- the contents of a file, as far as they are written
  written : String → String → FileChange
  renamed : String → String → FileChange

abbrev pub apply : FileChange → Dir → Dir
apply (created p) d = write p (some "") d
apply (removed p) d = write p none d
apply (written p text) d = write p (some text) d
apply (renamed p q) d = elim (d p) [ none ↦ d | some text ↦ write p none (write q (some text) d) ]

abbrev pub apply_all : List FileChange → Dir → Dir
apply_all [] d = d
apply_all (c ∷ cs) d = apply_all cs (apply c d)

pub record StoreHost : Type 0 where
  -- `json.MarshalIndent` with a newline, and `json.Unmarshal`
  pub encode : Checkpoint → Option String
  pub decode : String → Option Checkpoint
  -- the contents on the way to the whole text
  pub parts : String → List String
  -- `os.CreateTemp`
  pub temp_path : Result String
  pub read_error : Option Error
  pub mkdir_error : Option Error
  pub chmod_error : Option Error
  pub write_error : Option Error
  pub sync_error : Option Error
  pub close_error : Option Error
  pub rename_error : Option Error
  -- whether `os.Remove` of the temporary file succeeds
  pub removes : Bool

module _ (h : StoreHost) (path : String) where
  abbrev pub decoded : Option Checkpoint → Result Checkpoint
  decoded none = err (other "decode checkpoint")
  decoded (some c) = elim (validate c) [ some x ↦ err x | none ↦ ok c ]

  -- `FileStore.Load`
  unfoldable pub load_file : Dir → Result Checkpoint
  load_file d = elim h.read_error [
    | some x ↦ err x
    | none ↦ elim (d path) [
      | none ↦ err (other "file does not exist")
      | some text ↦ decoded (h.decode text)
    ]
  ]

  abbrev pub written_parts : String → List String → List FileChange
  written_parts temp [] = []
  written_parts temp (p ∷ ps) = written temp p ∷ written_parts temp ps

  abbrev pub written_whole : String → String → List FileChange
  written_whole temp text = written_parts temp (h.parts text) ++ (written temp text ∷ [])

  -- What is done with the temporary file, up to the rename.
  unfoldable pub fill_temp : String → String → List FileChange × Option Error
  fill_temp temp text = elim h.chmod_error [
    | some x ↦ ([], some x)
    | none ↦ elim h.write_error [
      | some x ↦ (written_parts temp (h.parts text), some x)
      | none ↦ elim h.sync_error [
        | some x ↦ (written_whole temp text, some x)
        | none ↦ elim h.close_error [
          | some x ↦ (written_whole temp text, some x)
          | none ↦ elim h.rename_error [
            | some x ↦ (written_whole temp text, some x)
            | none ↦ (written_whole temp text ++ (renamed temp path ∷ []), none)
          ]
        ]
      ]
    ]
  ]

  -- `defer os.Remove(tmpName)`
  abbrev pub cleanup : String → List FileChange
  cleanup temp = if h.removes then removed temp ∷ [] else []

  abbrev pub save_temp : String → String → List FileChange × Option Error
  save_temp temp text =
      (created temp ∷ ((fill_temp temp text).0 ++ cleanup temp), (fill_temp temp text).1)

  -- The part of `Save` behind the validation.
  unfoldable pub save_valid : Checkpoint → List FileChange × Option Error
  save_valid c = elim (h.encode c) [
    | none ↦ ([], some (other "json: unsupported value"))
    | some text ↦ elim h.mkdir_error [
      | some x ↦ ([], some x)
      | none ↦ elim h.temp_path [ err x ↦ ([], some x) | ok temp ↦ save_temp temp text ]
    ]
  ]

  -- `FileStore.Save`: the changes in their order, and the error.
  unfoldable pub save_file : Checkpoint → List FileChange × Option Error
  save_file c = elim (validate c) [ some x ↦ ([], some x) | none ↦ save_valid c ]
