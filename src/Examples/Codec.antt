-- ===== src/Examples/Codec.antt =====
-- Codecs from one type to another: what is encoded is read back, with what follows it.
pub mod Instances
use mathlib.Core.List.{append_assoc}
use banknote_chain.Base.{
  ℕ, zero, suc, ◌≡◌, ◌≢◌, refl, ap, ◌∙◌, List, [], ◌∷◌, ◌++◌, length, arith, Option, none, some,
}
use banknote_chain.Base.Go.{Bytes, Gob, IsGob}

pub record Codec (A : Type 0) : Type 0 where
  pub enc : A → Bytes
  pub dec : Bytes → Option (A × Bytes)
  pub reads_back : (a : A) (r : Bytes) → dec (enc a ++ r) ≡ some (a, r)

dec_nat : Bytes → Option (ℕ × Bytes)
dec_nat [] = none
dec_nat (n ∷ r) = some (n, r)

pub nat_codec : Codec ℕ
unfolding dec_nat
nat_codec = record { enc = λ n. n ∷ []; dec = dec_nat; reads_back = λ n r. refl }

module _ {A B : Type 0} (a : Codec A) (b : Codec B) where
  dec_second : Option (A × Bytes) → Option ((A × B) × Bytes)
  dec_second none = none
  dec_second (some (x, r)) = elim (b.dec r) [ none ↦ none | some p ↦ some ((x, p.0), p.1) ]

  pair_reads_back :
      (p : A × B) (r : Bytes) → dec_second (a.dec ((a.enc p.0 ++ b.enc p.1) ++ r)) ≡ some (p, r)
  unfolding dec_second
  pair_reads_back (x, y) r =
      rw
        (
          append_assoc (a.enc x) (b.enc y) r,
          a.reads_back x (b.enc y ++ r),
          dec_second,
          b.reads_back y r,
        )
        refl

  pub pair_codec : Codec (A × B)
  pair_codec = record {
    enc = λ p. a.enc p.0 ++ b.enc p.1;
    dec = λ s. dec_second (a.dec s);
    reads_back = pair_reads_back;
  }

module _ {A B : Type 0} (a : Codec A) (to : B → A) (from : A → B)
    (same : (x : B) → from (to x) ≡ x) where
  dec_from : Option (A × Bytes) → Option (B × Bytes)
  dec_from none = none
  dec_from (some (x, r)) = some (from x, r)

  iso_reads_back : (x : B) (r : Bytes) → dec_from (a.dec (a.enc (to x) ++ r)) ≡ some (x, r)
  unfolding dec_from
  iso_reads_back x r = rw (a.reads_back (to x) r, dec_from) (ap (λ z. some (z, r)) (same x))

  pub iso_codec : Codec B
  iso_codec = record {
    enc = λ x. a.enc (to x);
    dec = λ s. dec_from (a.dec s);
    reads_back = iso_reads_back;
  }

module _ {A : Type 0} (a : Codec A) where
  enc_all : List A → Bytes
  enc_all [] = []
  enc_all (x ∷ xs) = a.enc x ++ enc_all xs

  dec_next : (Bytes → Option (List A × Bytes)) → Option (A × Bytes) → Option (List A × Bytes)
  dec_next rest none = none
  dec_next rest (some (x, r)) = elim (rest r) [ none ↦ none | some p ↦ some (x ∷ p.0, p.1) ]

  dec_all : ℕ → Bytes → Option (List A × Bytes)
  dec_all zero s = some ([], s)
  dec_all (suc n) s = dec_next (dec_all n) (a.dec s)

  dec_list : Bytes → Option (List A × Bytes)
  dec_list [] = none
  dec_list (n ∷ s) = dec_all n s

  all_reads_back : (xs : List A) (r : Bytes) → dec_all (length xs) (enc_all xs ++ r) ≡ some (xs, r)
  unfolding enc_all dec_all dec_next
  all_reads_back [] r = refl
  all_reads_back (x ∷ xs) r =
      rw
        (
          append_assoc (a.enc x) (enc_all xs) r,
          dec_all,
          a.reads_back x (enc_all xs ++ r),
          dec_next,
          all_reads_back xs r,
        )
        refl

  pub list_codec : Codec (List A)
  unfolding dec_list
  list_codec = record {
    enc = λ xs. length xs ∷ enc_all xs;
    dec = dec_list;
    reads_back = all_reads_back;
  }

  dec_whole : Option (A × Bytes) → Option A
  dec_whole none = none
  dec_whole (some p) = some p.0

  from_stream : Bytes → Option A
  from_stream [] = none
  from_stream (_ ∷ s) = dec_whole (a.dec (s ++ []))

  pub gob_of : Gob A
  gob_of = record { gob_encode = λ x. some (0 ∷ a.enc x); gob_decode = from_stream }

  is_cons : Bytes → ℕ
  is_cons [] = 0
  is_cons (_ ∷ _) = 1

  not_empty : (x : ℕ) (xs : Bytes) → (x ∷ xs) ≢ []
  unfolding is_cons
  not_empty x xs e = let one : ◌≡◌ {A = ℕ} 1 0 = ap is_cons e in omega arith

  pub gob_of-IsGob : IsGob gob_of
  unfolding gob_of from_stream dec_whole
  gob_of-IsGob = record {
    stream = λ x. 0 ∷ a.enc x;
    encodes = λ x. refl;
    decodes = λ x. ap dec_whole (a.reads_back x []);
    fills = λ x. not_empty 0 (a.enc x);
  }
