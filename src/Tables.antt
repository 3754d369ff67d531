-- ===== src/Tables.antt =====
-- The tables of the switch, which come from a library in libnvcore/src/jsw_hlib.c (written by
-- another project) and are known here by what its functions return. A key is a list of bytes and
-- an item a pointer; the copy of an item is the item (`session_itemdup` of nvswitch/src/session.c).
-- An insertion of a key that is there changes nothing.
use netvirt.Prelude.{ℕ, ◌≡◌, ◌≢◌, ◌↔◌, Bool, true, List, ◌==◌, ◌&&◌, if◌then◌else◌, take}

pub record HashTable : Type 1 where
  pub Table : Type 0
  pub same_key : List ℕ → List ℕ → Bool
  pub same_key_iff : (j k : List ℕ) → (same_key j k ≡ true) ↔ (j ≡ k)
  pub jsw_hnew : ℕ → Table
  pub jsw_hfind : Table → List ℕ → ℕ
  pub jsw_hinsert : Table → List ℕ → ℕ → Table
  pub jsw_herase : Table → List ℕ → Table
  pub find_new : (size : ℕ) (k : List ℕ) → jsw_hfind (jsw_hnew size) k ≡ 0
  pub find_insert :
      (t : Table) (k j : List ℕ) (item : ℕ)
      → item ≢ 0
      → jsw_hfind (jsw_hinsert t k item) j
        ≡ (if same_key k j && jsw_hfind t k == 0 then item else jsw_hfind t j)
  pub find_erase :
      (t : Table) (k j : List ℕ)
      → jsw_hfind (jsw_herase t k) j ≡ (if same_key k j then 0 else jsw_hfind t j)

-- nvswitch/src/ctable.c compares the first 36 bytes of a key, and libnvcore/src/ftable.c the
-- first six. The pointers to the tables are not NULL.
module _ (tables : HashTable) where
  open tables use {Table, jsw_hnew, jsw_hfind, jsw_hinsert, jsw_herase}

  abbrev pub uuid_str_len : ℕ
  uuid_str_len = 36

  unfoldable pub ctable_new : ℕ → Table
  ctable_new size = jsw_hnew size

  unfoldable pub ctable_find : Table → List ℕ → ℕ
  ctable_find ctable uuid = jsw_hfind ctable (take uuid_str_len uuid)

  unfoldable pub ctable_insert : Table → List ℕ → ℕ → Table
  ctable_insert ctable uuid session = jsw_hinsert ctable (take uuid_str_len uuid) session

  unfoldable pub ctable_erase : Table → List ℕ → Table
  ctable_erase ctable uuid = jsw_herase ctable (take uuid_str_len uuid)

  abbrev pub mac_len : ℕ
  mac_len = 6

  unfoldable pub ftable_new : ℕ → Table
  ftable_new size = jsw_hnew size

  unfoldable pub ftable_find : Table → List ℕ → ℕ
  ftable_find ftable mac = jsw_hfind ftable (take mac_len mac)

  unfoldable pub ftable_insert : Table → List ℕ → ℕ → Table
  ftable_insert ftable mac item = jsw_hinsert ftable (take mac_len mac) item

  unfoldable pub ftable_erase : Table → List ℕ → Table
  ftable_erase ftable mac = jsw_herase ftable (take mac_len mac)
