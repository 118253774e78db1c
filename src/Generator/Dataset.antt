-- ===== src/Generator/Dataset.antt =====
-- txGenerator/banknote_dataset_csv_reader.go: the batches of the banknote dataset, and the
-- transactions of a batch.
pub mod Batches
use banknote_chain.Base.{
  ℕ, suc, zero, ◌+◌, ◌-◌, ◌*◌, List, [], ◌∷◌, ◌++◌, Bool, true, false, ◌&&◌, Option, none, some,
  ◌==◌, leb, if◌then◌else◌, length, take, drop,
}
use banknote_chain.Base.Int.{ℤ, pos, negsuc}
use banknote_chain.Base.Outcome.{Outcome, ok, panic, log_panic, require, ◌>>=◌}
use banknote_chain.Base.Go.{Hash, Address, Bytes, Gob}
use banknote_chain.Tx.{encode_banknote_tx, BanknoteTx, BanknoteTxType, bg, bt, br, bs, nt}

-- Texts are their bytes.
abbrev pub eq_text : Bytes → Bytes → Bool
eq_text [] [] = true
eq_text (x ∷ xs) (y ∷ ys) = (x == y) && eq_text xs ys
eq_text _ _ = false

-- `strings.HasPrefix(line, "~")`
abbrev pub is_separator : Bytes → Bool
is_separator [] = false
is_separator (b ∷ _) = b == 126

-- The lines after the header that end in a line feed; what follows the last line feed comes
-- together with io.EOF, and is not looked at.
pub record BatchReader : Type 0 where
  pub lines : List Bytes
  pub is_eof : Bool
  pub count_line : ℕ

-- The loop of `ReadBatch`, which gives the lines of the batch. `batch_data` holds those so far.
unfoldable pub read_lines : List Bytes → List Bytes → ℕ → List Bytes × BatchReader
read_lines batch_data [] count_line =
    (batch_data, record { lines = []; is_eof = true; count_line = count_line + 1 })
read_lines batch_data (line ∷ lines) count_line =
    let skipped = read_lines batch_data lines (count_line + 1) in
    let kept = read_lines (batch_data ++ line ∷ []) lines (count_line + 1) in
    let ended : List Bytes × BatchReader =
      (batch_data, record { lines = lines; is_eof = false; count_line = count_line + 1 }) in
    if is_separator line then (if length batch_data == 0 then skipped else ended) else kept

-- The lines of the next batch; none if the file is at its end.
unfoldable pub next_batch : BatchReader → List Bytes × BatchReader
next_batch r = if r.is_eof then ([], r) else read_lines [] r.lines r.count_line

pub record BanknoteTxCsvRow : Type 0 where
  pub sender : Bytes
  pub recipient : Bytes
  pub bn_tx_type : Bytes
  pub bn_hash : Bytes
  pub banknote_value : Bytes
  pub bn_new1_hash : Bytes
  pub bn_new1_value : Bytes
  pub bn_new2_hash : Bytes
  pub bn_new2_value : Bytes
  pub creator : Bytes

-- The digits of a number in base 10.
abbrev pub digits : ℕ → Bytes → Option ℕ
digits n [] = some n
digits n (b ∷ s) =
    let rest = digits (n * 10 + (b - 48)) s in if leb 48 b && leb b 57 then rest else none

-- `new(big.Int).SetString(s, 10)`: a sign, and at least one digit.
unfoldable pub natural : Bytes → Option ℕ
natural [] = none
natural (b ∷ s) = digits 0 (b ∷ s)

abbrev pub negated : ℕ → ℤ
negated zero = pos 0
negated (suc n) = negsuc n

unfoldable pub set_string : Bytes → Option ℤ
set_string [] = none
set_string (b ∷ s) =
    let signed : Option ℤ = elim (natural s) [ none ↦ none | some n ↦ some (negated n) ] in
    let plus : Option ℤ = elim (natural s) [ none ↦ none | some n ↦ some (pos n) ] in
    let plain : Option ℤ = elim (natural (b ∷ s)) [ none ↦ none | some n ↦ some (pos n) ] in
    if b == 45 then signed else (if b == 43 then plus else plain)

-- `strings.TrimSuffix(s, ".0")`
unfoldable pub trim_suffix : Bytes → Bytes
trim_suffix s = let n = length s - 2 in if eq_text (drop n s) (46 ∷ 48 ∷ []) then take n s else s

-- The value of a new banknote: 0 for an empty text, and nil for one that is no number.
abbrev pub new_value : Bytes → Option ℤ
new_value [] = some (pos 0)
new_value (b ∷ s) = set_string (b ∷ s)

-- The texts "0.0" to "4.0"
abbrev pub type_text : ℕ → Bytes
type_text n = (48 + n) ∷ 46 ∷ 48 ∷ []

-- The type of a row; any other text leaves the zero value, which is BG.
unfoldable pub tx_type_of : Bytes → BanknoteTxType
tx_type_of s =
    if eq_text s (type_text 1)
    then bg
    else if eq_text s (type_text 2)
    then bt
    else if eq_text s (type_text 3)
    then bs
    else if eq_text s (type_text 4)
    then br
    else bg

-- `hex_to_address` and `keccak256` are go-ethereum's.
module _ (hex_to_address : Bytes → Address) (keccak256 : Bytes → Hash) (gx : Gob BanknoteTx) where
  -- The transaction before its hash is set.
  unfoldable pub row_tx : BanknoteTxCsvRow → ℤ → BanknoteTx
  row_tx row amount = record {
    tx_hash = 0;
    from = hex_to_address row.sender;
    to = hex_to_address row.recipient;
    banknote_hash = keccak256 row.bn_hash;
    banknote_origin_id_in_csv = row.bn_hash;
    amount = some amount;
    banknote_tx_type = tx_type_of row.bn_tx_type;
    creator = hex_to_address row.creator;
    banknote_hash1_new_for_split = keccak256 row.bn_new1_hash;
    banknote_hash1_new_origin_id_in_csv = row.bn_new1_hash;
    amount1_new_for_split = new_value row.bn_new1_value;
    banknote_hash2_new_for_split = keccak256 row.bn_new2_hash;
    banknote_hash2_new_origin_id_in_csv = row.bn_new2_hash;
    amount2_new_for_split = new_value row.bn_new2_value;
  }

  unfoldable pub read_row : BanknoteTxCsvRow → Outcome BanknoteTx
  read_row row = do
    amount ← require log_panic (set_string (trim_suffix row.banknote_value))
    let tx = row_tx row amount
    encoded ← encode_banknote_tx gx tx
    ok (record tx { tx_hash = keccak256 encoded })

  unfoldable pub read_rows : List BanknoteTxCsvRow → Outcome (List BanknoteTx)
  read_rows [] = ok []
  read_rows (row ∷ rows) =
      let kept : Outcome (List BanknoteTx) =
        read_row row >>= λ tx. read_rows rows >>= λ txs. ok (tx ∷ txs) in
      let skipped = read_rows rows in if eq_text row.bn_tx_type (type_text 0) then skipped else kept

  -- The first row of a batch is the payment that the others stand for. `unmarshal` is gocsv's on the
  -- lines of a batch below the header; its error is dropped, and the batch with it.
  unfoldable pub read_banknote_dataset_item :
      (List Bytes → Option (List BanknoteTxCsvRow))
      → BatchReader
      → Outcome (List BanknoteTx × BatchReader)
  read_banknote_dataset_item unmarshal r =
      let (batch, r') = next_batch r in
      elim batch [
        | [] ↦ ok ([], r')
        | line ∷ lines ↦ elim (unmarshal (line ∷ lines)) [
          | none ↦ ok ([], r')
          | some rows ↦ read_rows (drop 1 rows) >>= λ txs. ok (txs, r')
        ]
      ]
