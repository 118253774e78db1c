-- ===== src/Examples/Codec/Instances.antt =====
-- The codecs of the types that the program stores.
use banknote_chain.Base.{ℕ, zero, suc, ◌≡◌, refl, List, [], ◌∷◌, Option, none, some}
use banknote_chain.Base.Int.{ℤ, pos, negsuc}
use banknote_chain.Base.Go.{Bytes, Gob, IsGob}
use banknote_chain.Account.{AccountState}
use banknote_chain.Block.{BanknoteBlock}
use banknote_chain.Examples.Codec.{
  Codec, nat_codec, pair_codec, iso_codec, list_codec, gob_of, gob_of-IsGob,
}
use banknote_chain.Storage.{Block, BlockHeader}
use banknote_chain.Transaction.{Transaction}
use banknote_chain.Tx.{BanknoteTx, BanknoteTxType, bg, bt, br, bs, nt}

sign_magnitude : ℤ → ℕ × ℕ
sign_magnitude (pos n) = (0, n)
sign_magnitude (negsuc n) = (1, n)

signed : ℕ × ℕ → ℤ
signed (zero, n) = pos n
signed (suc _, n) = negsuc n

signed-sign_magnitude : (z : ℤ) → signed (sign_magnitude z) ≡ z
unfolding signed sign_magnitude
signed-sign_magnitude (pos n) = refl
signed-sign_magnitude (negsuc n) = refl

abbrev int_codec : Codec ℤ
int_codec = iso_codec (pair_codec nat_codec nat_codec) sign_magnitude signed signed-sign_magnitude

to_list : {A : Type 0} → Option A → List A
to_list none = []
to_list (some a) = a ∷ []

head : {A : Type 0} → List A → Option A
head [] = none
head (a ∷ _) = some a

head-to_list : {A : Type 0} (o : Option A) → head (to_list o) ≡ o
unfolding head to_list
head-to_list none = refl
head-to_list (some a) = refl

abbrev option_codec : {A : Type 0} → Codec A → Codec (Option A)
option_codec a = iso_codec (list_codec a) to_list head head-to_list

abbrev bytes_codec : Codec Bytes
bytes_codec = list_codec nat_codec

type_number : BanknoteTxType → ℕ
type_number bg = 0
type_number bt = 1
type_number br = 2
type_number bs = 3
type_number nt = 4

type_of : ℕ → BanknoteTxType
type_of zero = bg
type_of (suc zero) = bt
type_of (suc (suc zero)) = br
type_of (suc (suc (suc zero))) = bs
type_of (suc (suc (suc (suc _)))) = nt

type_of-type_number : (t : BanknoteTxType) → type_of (type_number t) ≡ t
unfolding type_of type_number
type_of-type_number bg = refl
type_of-type_number bt = refl
type_of-type_number br = refl
type_of-type_number bs = refl
type_of-type_number nt = refl

abbrev type_codec : Codec BanknoteTxType
type_codec = iso_codec nat_codec type_number type_of type_of-type_number

abbrev banknote_tx_codec : Codec BanknoteTx
banknote_tx_codec =
    iso_codec
      (pair_codec (pair_codec (pair_codec nat_codec nat_codec) (pair_codec nat_codec nat_codec)) (
        pair_codec (pair_codec bytes_codec (pair_codec (option_codec int_codec) type_codec)) (
          pair_codec
            (pair_codec nat_codec
              (pair_codec nat_codec (pair_codec bytes_codec (option_codec int_codec))))
            (pair_codec nat_codec (pair_codec bytes_codec (option_codec int_codec))))))
      (λ x. (
        ((x.tx_hash, x.from), (x.to, x.banknote_hash)),
        (
          (x.banknote_origin_id_in_csv, (x.amount, x.banknote_tx_type)),
          (
            (
              x.creator,
              (
                x.banknote_hash1_new_for_split,
                (x.banknote_hash1_new_origin_id_in_csv, x.amount1_new_for_split),
              ),
            ),
            (
              x.banknote_hash2_new_for_split,
              (x.banknote_hash2_new_origin_id_in_csv, x.amount2_new_for_split),
            ),
          ),
        ),
      ))
      (λ p. record {
        tx_hash = p.0.0.0;
        from = p.0.0.1;
        to = p.0.1.0;
        banknote_hash = p.0.1.1;
        banknote_origin_id_in_csv = p.1.0.0;
        amount = p.1.0.1.0;
        banknote_tx_type = p.1.0.1.1;
        creator = p.1.1.0.0;
        banknote_hash1_new_for_split = p.1.1.0.1.0;
        banknote_hash1_new_origin_id_in_csv = p.1.1.0.1.1.0;
        amount1_new_for_split = p.1.1.0.1.1.1;
        banknote_hash2_new_for_split = p.1.1.1.0;
        banknote_hash2_new_origin_id_in_csv = p.1.1.1.1.0;
        amount2_new_for_split = p.1.1.1.1.1;
      })
      (λ x. refl)

abbrev banknote_block_codec : Codec BanknoteBlock
banknote_block_codec =
    iso_codec
      (pair_codec (pair_codec (pair_codec nat_codec nat_codec) (pair_codec nat_codec nat_codec)) (
        pair_codec (pair_codec bytes_codec (list_codec banknote_tx_codec))
          (pair_codec (list_codec (list_codec banknote_tx_codec)) nat_codec)))
      (λ b. (
        ((b.block_number, b.banknote_block_hash), (b.tx_hash, b.cledger_state_root)),
        ((b.pledger_state_roots, b.c_ledger), (b.p_ledgers, b.banknote_tx_count)),
      ))
      (λ p. record {
        block_number = p.0.0.0;
        banknote_block_hash = p.0.0.1;
        tx_hash = p.0.1.0;
        cledger_state_root = p.0.1.1;
        pledger_state_roots = p.1.0.0;
        c_ledger = p.1.0.1;
        p_ledgers = p.1.1.0;
        banknote_tx_count = p.1.1.1;
      })
      (λ b. refl)

abbrev transaction_codec : Codec Transaction
transaction_codec =
    iso_codec
      (pair_codec (pair_codec nat_codec nat_codec) (
        pair_codec (pair_codec nat_codec (option_codec int_codec))
          (pair_codec nat_codec (pair_codec nat_codec bytes_codec))))
      (λ x. ((x.sender, x.recipient), ((x.nonce, x.value), (x.tx_hash, (x.time, x.sig)))))
      (λ p. record {
        sender = p.0.0;
        recipient = p.0.1;
        nonce = p.1.0.0;
        value = p.1.0.1;
        tx_hash = p.1.1.0;
        time = p.1.1.1.0;
        sig = p.1.1.1.1;
      })
      (λ x. refl)

abbrev header_codec : Codec BlockHeader
header_codec =
    iso_codec
      (pair_codec (pair_codec bytes_codec (pair_codec bytes_codec bytes_codec)) (
        pair_codec (pair_codec nat_codec (pair_codec nat_codec nat_codec))
          (pair_codec nat_codec (pair_codec nat_codec int_codec))))
      (λ h. (
        (h.parent_block_hash, (h.state_root, h.tx_root)),
        (
          (h.number, (h.time, h.miner)),
          (h.total_tx_count, (h.proposed_time, h.message_delay_time)),
        ),
      ))
      (λ p. record {
        parent_block_hash = p.0.0;
        state_root = p.0.1.0;
        tx_root = p.0.1.1;
        number = p.1.0.0;
        time = p.1.0.1.0;
        miner = p.1.0.1.1;
        total_tx_count = p.1.1.0;
        proposed_time = p.1.1.1.0;
        message_delay_time = p.1.1.1.1;
      })
      (λ h. refl)

abbrev block_codec : Codec Block
block_codec =
    iso_codec
      (pair_codec (pair_codec header_codec (list_codec transaction_codec))
        (pair_codec bytes_codec (option_codec banknote_block_codec)))
      (λ b. ((b.header, b.body), (b.hash, b.banknote_block)))
      (λ p. record { header = p.0.0; body = p.0.1; hash = p.1.0; banknote_block = p.1.1 })
      (λ b. refl)

abbrev account_codec : Codec AccountState
account_codec =
    iso_codec
      (pair_codec (pair_codec bytes_codec (pair_codec nat_codec int_codec))
        (pair_codec bytes_codec (pair_codec bytes_codec bytes_codec)))
      (λ s.
        ((s.ac_address, (s.nonce, s.balance)), (s.storage_root, (s.code_hash, s.banknote_hashes))))
      (λ p. record {
        ac_address = p.0.0;
        nonce = p.0.1.0;
        balance = p.0.1.1;
        storage_root = p.1.0;
        code_hash = p.1.1.0;
        banknote_hashes = p.1.1.1;
      })
      (λ s. refl)

pub banknote_tx_gob : Gob BanknoteTx
banknote_tx_gob = gob_of banknote_tx_codec

pub account_gob : Gob AccountState
account_gob = gob_of account_codec

pub header_gob : Gob BlockHeader
header_gob = gob_of header_codec

pub transaction_gob : Gob Transaction
transaction_gob = gob_of transaction_codec

pub block_gob : Gob Block
block_gob = gob_of block_codec

pub banknote_tx_gob-IsGob : IsGob banknote_tx_gob
unfolding banknote_tx_gob
banknote_tx_gob-IsGob = gob_of-IsGob banknote_tx_codec

pub account_gob-IsGob : IsGob account_gob
unfolding account_gob
account_gob-IsGob = gob_of-IsGob account_codec

pub header_gob-IsGob : IsGob header_gob
unfolding header_gob
header_gob-IsGob = gob_of-IsGob header_codec

pub block_gob-IsGob : IsGob block_gob
unfolding block_gob
block_gob-IsGob = gob_of-IsGob block_codec

pub transaction_gob-IsGob : IsGob transaction_gob
unfolding transaction_gob
transaction_gob-IsGob = gob_of-IsGob transaction_codec
