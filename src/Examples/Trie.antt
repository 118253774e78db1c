-- ===== src/Examples/Trie.antt =====
-- A trie library in which a database is the list of the tries that were committed, and a root is a
-- trie's place in it, counted from 1.
use banknote_chain.Base.{
  ℕ, zero, suc, ◌≡◌, refl, sym, ap, ◌∙◌, subst, List, [], ◌∷◌, ◌++◌, length, get_elem?, Option,
  none, some, ◌==◌, if◌then◌else◌, ==_refl, ==_ne,
}
use banknote_chain.Base.Go.{Bytes, TrieLib, IsTrieLib, Updated, unchanged, written}

abbrev pub Entries : Type 0
Entries = List (ℕ × Bytes)

-- `base` is the number of tries committed before.
pub record MapTrie : Type 0 where
  pub base : ℕ
  pub entries : Entries

abbrev pub lookup : Entries → ℕ → Option Bytes
lookup [] k = none
lookup (e ∷ es) k = if e.0 == k then some e.1 else lookup es k

abbrev pub opened : List Entries → Option Entries → Option MapTrie
opened db none = none
opened db (some es) = some (record { base = length db; entries = es })

abbrev pub open_root : ℕ → List Entries → Option MapTrie
open_root zero db = some (record { base = length db; entries = [] })
open_root (suc i) db = opened db (get_elem? db i)

abbrev pub map_lib : TrieLib
map_lib = record {
  Trie = MapTrie;
  Database = List Entries;
  NodeSet = Entries;
  new_trie = open_root;
  new_empty = λ db. record { base = length db; entries = [] };
  get = λ t k. lookup t.entries k;
  update = λ t k v. record { base = t.base; entries = (k, v) ∷ t.entries };
  root_hash = λ t. elim t.entries [ [] ↦ 0 | _ ∷ _ ↦ suc t.base ];
  commit = λ t. (suc t.base, some t.entries);
  update_database = λ db n. some (db ++ n ∷ []);
  commit_database = λ db _. some db;
}

Updated-base : {t u : MapTrie} → Updated map_lib t u → u.base ≡ t.base
Updated-base unchanged = refl
Updated-base (written by k v) = Updated-base by

opened-base :
    (db : List Entries) (o : Option Entries) (t : MapTrie)
    → opened db o ≡ some t
    → t.base ≡ length db
opened-base db none t e = cc
opened-base db (some es) t e =
    let t_eq : record { base = length db; entries = es } ≡ t = cc in ap (λ z. z.base) (sym t_eq)

open_root-base :
    (root : ℕ) (db : List Entries) (t : MapTrie) → open_root root db ≡ some t → t.base ≡ length db
open_root-base zero db t e =
    let t_eq : record { base = length db; entries = [] } ≡ t = cc in ap (λ z. z.base) (sym t_eq)
open_root-base (suc i) db t e = opened-base db (get_elem? db i) t e

get_elem?-last :
    (db : List Entries) (es : Entries) → get_elem? (db ++ es ∷ []) (length db) ≡ some es
get_elem?-last [] es = refl
get_elem?-last (d ∷ db) es = get_elem?-last db es

-- Opening at the root of the last commit.
open_last :
    (db : List Entries) (es : Entries) (root : ℕ)
    → root ≡ suc (length db)
    → open_root root (db ++ es ∷ []) ≡ some (record { base = length (db ++ es ∷ []); entries = es })
open_last db es root e = rw e (rw (get_elem?-last db es) refl)

reopens_last :
    (root : ℕ) (db : List Entries) (t u : MapTrie)
    → open_root root db ≡ some t
    → Updated map_lib t u
    → (n : Entries) (root' : ℕ) (db₁ db₂ : List Entries)
    → ◌≡◌ {A = ℕ × Option Entries} (suc u.base, some u.entries) (root', some n)
    → some (db ++ n ∷ []) ≡ some db₁
    → some db₁ ≡ some db₂
    → (w : MapTrie) × (open_root root' db₂ ≡ some w)
      × ((k : ℕ) → lookup w.entries k ≡ lookup u.entries k)
reopens_last root db t u opens by n root' db₁ db₂ commits updates writes =
    let w : MapTrie = record { base = length (db ++ n ∷ []); entries = n } in
    let base_eq : u.base ≡ length db = Updated-base by ∙ open_root-base root db t opens in
    let root_eq : root' ≡ suc (length db) = sym (ap (λ z. z.0) commits) ∙ ap suc base_eq in
    let n_some : some u.entries ≡ some n = ap (λ z. z.1) commits in
    let n_eq : u.entries ≡ n = cc in
    let db_eq : db ++ n ∷ [] ≡ db₂ = cc in
    (
      w,
      subst (λ z. open_root root' z ≡ some w) db_eq (open_last db n root' root_eq),
      λ k. ap (λ z. lookup z k) (sym n_eq),
    )

pub map_lib-IsTrieLib : IsTrieLib map_lib
map_lib-IsTrieLib = record {
  get-update_self = λ t k v _. rw (==_refl k) refl;
  get-update_ne = λ t k j v n. rw (==_ne k j n) refl;
  empty_opens = λ db. refl;
  get-empty = λ db k. refl;
  updates = λ db n e. cc;
  commits = λ db r e. cc;
  reopens = reopens_last;
  reopens_clean = λ root db t u _ _ root' e. let e' : some u.entries ≡ none = ap (λ z. z.1) e in cc;
}
