-- ===== src/Network/Keys.antt =====
-- network/p2p.go, `loadOrCreatePrivateKey`: the key of a file stays the same.
use banknote_chain.Base.{
  ◌≡◌, refl, sym, ap, ◌∙◌, Option, none, some, true, Bool-cases, inl, inr, subst,
}
use banknote_chain.Base.Go.{Bytes}
use banknote_chain.Network.{
  NetworkError, Result, value, ◌>>>◌, or_error, KeyLib, FileLib, no_key, no_marshal, no_write,
  no_read, no_unmarshal, create_private_key, load_private_key, load_or_create_private_key,
}

-- What libp2p documents of keys, and the operating system of files: a key that was marshalled
-- unmarshals to itself, and a file that was written exists and is read back.
pub record IsKeyLib (K : KeyLib) : Type 0 where
  pub unmarshal-marshal :
      (key : K.PrivKey) (bytes : Bytes) → K.marshal key ≡ some bytes → K.unmarshal bytes ≡ some key

pub record IsFileLib (F : FileLib) : Type 0 where
  pub exists-write :
      (files files' : F.Files) (path bytes : Bytes)
      → F.write_file files path bytes ≡ some files'
      → F.exists_file files' path ≡ true
  pub read-write :
      (files files' : F.Files) (path bytes : Bytes)
      → F.write_file files path bytes ≡ some files'
      → F.read_file files' path ≡ some bytes

-- A chain that gives a value has a first part that does.
pub or_error-value :
    {A B : Type 0} (e : NetworkError) (o : Option A) (f : A → Result B) {b : B}
    → (or_error e o >>> f) ≡ value b
    → (a : A) × (o ≡ some a) × (f a ≡ value b)
or_error-value e none f h = absurd (cc)
or_error-value e (some a) f h = (a, refl, h)

pub value_of : {A : Type 0} {a b : A} → value a ≡ value b → a ≡ b
value_of h = cc

module _ {K : KeyLib} {F : FileLib} (is_k : IsKeyLib K) (is_f : IsFileLib F) where
  -- The files after a key was written to them.
  written-loads :
      (random : K.Randomness) (path bytes : Bytes) (files files' : F.Files) (key : K.PrivKey)
      → K.marshal key ≡ some bytes
      → F.write_file files path bytes ≡ some files'
      → load_or_create_private_key K F random path files' ≡ value (key, files')
  unfolding load_or_create_private_key load_private_key
  written-loads random path bytes files files' key marshalled wrote = rw (
    is_f.exists-write files files' path bytes wrote,
    is_f.read-write files files' path bytes wrote,
    is_k.unmarshal-marshal key bytes marshalled,
  )

  -- When a call gives a key, whether it made or found it, the next call on the files that it leaves
  -- gives the same key and changes no file, whatever randomness it could draw.
  pub load_or_create_private_key-again :
      (random random' : K.Randomness) (path : Bytes) (files files' : F.Files) (key : K.PrivKey)
      → load_or_create_private_key K F random path files ≡ value (key, files')
      → load_or_create_private_key K F random' path files' ≡ value (key, files')
  unfolding load_or_create_private_key load_private_key create_private_key
  load_or_create_private_key-again random random' path files files' key h =
      elim (Bool-cases (F.exists_file files path)) [
        | inl found ↦
            let h' = rw found at h in
            let (bytes, _, h₁) = or_error-value no_read (F.read_file files path) _ h' in
            let (key', _, h₂) = or_error-value no_unmarshal (K.unmarshal bytes) _ h₁ in
            let same : (key', files) ≡ (key, files') = value_of h₂ in
            ap (λ r. load_or_create_private_key K F random' path r.1) (sym same) ∙ rw found h'
        | inr missing ↦
            let h' = rw missing at h in
            let (made, _, h₁) = or_error-value no_key (K.generate_key random) _ h' in
            let (bytes, marshalled, h₂) = or_error-value no_marshal (K.marshal made) _ h₁ in
            let (left, wrote, h₃) = or_error-value no_write (F.write_file files path bytes) _ h₂ in
            subst (λ r. load_or_create_private_key K F random' path r.1 ≡ value r) (value_of h₃)
              (written-loads random' path bytes files left made marshalled wrote)
      ]
