-- ===== src/Capture/Snapshot.antt =====
-- capture/snapshot.py: the complete records of a transcript that may still grow. Bytes are numbers;
-- the reading of the file, SHA-256 and the JSON parser are arguments.
pub mod Lines
use agent_debug_x.Base.{
  ℕ, suc, ◌+◌, String, ◌+++◌, Bool, false, ◌&&◌, ◌||◌, Option, none, some, List, [], ◌∷◌, ◌++◌, all,
  take, drop, length, leb, if◌then◌else◌, ◌==◌, nat_eq,
}
use agent_debug_x.Python.{
  Value, Fields, as_dict, is_decode_error, Result, ok, err, value_error, ◌>>=◌, show_nat,
}
use agent_debug_x.Capture.Tables.{TranscriptSnapshot}

-- `content.rfind(b'\n')`, `none` for -1
unfoldable pub rfind_newline : List ℕ → Option ℕ
rfind_newline [] = none
rfind_newline (b ∷ rest) = elim (rfind_newline rest) [
  | some i ↦ some (suc i)
  | none ↦ (if b == 10 then some 0 else none)
]

unfoldable pub complete_size_of : List ℕ → ℕ
complete_size_of content = elim (rfind_newline content) [ none ↦ 0 | some i ↦ suc i ]

-- `bytes.splitlines()`, with the line read so far, and whether the byte before was a return
unfoldable pub lines_from : List ℕ → Bool → List ℕ → List (List ℕ)
lines_from [] returned [] = []
lines_from (b ∷ line) returned [] = (b ∷ line) ∷ []
lines_from line returned (b ∷ rest) =
    let closed = line ∷ lines_from [] (b == 13) rest in
    let skipped = lines_from line false rest in
    let longer = lines_from (line ++ b ∷ []) false rest in
    if b == 10 && returned then skipped else if b == 10 || b == 13 then closed else longer

-- `not raw_line.strip()`
unfoldable pub is_blank : List ℕ → Bool
is_blank line = all (λ b. leb 9 b && leb b 13 || b == 32) line

module _ (loads : List ℕ → Result Value) where
  -- `json.loads` of the line with that number. A text that is no JSON or no UTF-8 is reported as
  -- malformed; anything else that the parser raises, such as RecursionError, goes through.
  unfoldable pub read_record : ℕ → List ℕ → Result Fields
  read_record number line = elim (loads line) [
    | err raised ↦
        (if is_decode_error raised
          then err (value_error ("malformed committed JSONL record at line " +++ show_nat number))
          else err raised)
    | ok value ↦ elim (as_dict value) [
      | none ↦ err (
          value_error
            ("committed JSONL record at line " +++ show_nat number +++ " is not an object"))
      | some payload ↦ ok payload
    ]
  ]

  -- The loop over the lines: the records, and the last line that held one
  unfoldable pub read_records : ℕ → List (List ℕ) → List ℕ → Result (List Fields × List ℕ)
  read_records number [] last = ok ([], last)
  read_records number (line ∷ lines) last =
      let skipped = read_records (number + 1) lines last in
      let kept = read_record number line >>= λ payload.
      (read_records (number + 1) lines line >>= λ rest. ok (payload ∷ rest.0, rest.1)) in
      if is_blank line then skipped else kept

  module _ (sha256 : List ℕ → String) where
    -- `read_complete_jsonl`, on the resolved path and the content that was read
    unfoldable pub read_complete_jsonl : String → List ℕ → Result TranscriptSnapshot
    read_complete_jsonl path content =
        let size = complete_size_of content in
        let complete = take size content in
        let tail = drop size content in
        read_records 1 (lines_from [] false complete) [] >>= λ read. ok (record {
          path = path;
          complete_bytes = complete;
          complete_size = length complete;
          content_sha256 = sha256 complete;
          last_record_sha256 = sha256 read.1;
          records = read.0;
          ignored_tail_bytes = length tail;
        })
