-- ===== src/Cert/Names.antt =====
-- Which names are read, and as what.
use netvirt.Prelude.{
  ℕ, zero, suc, ap, ◌-◌, ◌<◌, ◌≤◌, ◌≡◌, refl, true, false, List, [], ◌∷◌, ◌++◌, arith, ◌+◌, ◌%◌,
  ◌&&◌, leb, some, take_past, ltb, min, take, drop, length, length-append,
}
use netvirt.Cert.{copy_count, copy_network_id, nva, node, cn2node_info, altname2node_info}

take-append {ℓ} : {A : Type ℓ} (n : ℕ) (xs ys : List A) → length xs ≡ n → take n (xs ++ ys) ≡ xs
take-append zero [] ys h = refl
take-append (suc n) [] ys h = absurd (omega arith)
take-append zero (x ∷ xs) ys h = absurd (omega arith)
take-append (suc n) (x ∷ xs) ys h = ap (◌∷◌ x) (take-append n xs ys (omega arith))

drop-append {ℓ} :
    {A : Type ℓ} (n : ℕ) (xs ys : List A) (y : A) → length xs ≡ n → drop (suc n) (xs ++ y ∷ ys) ≡ ys
drop-append zero [] ys y h = refl
drop-append (suc n) [] ys y h = absurd (omega arith)
drop-append zero (x ∷ xs) ys y h = absurd (omega arith)
drop-append (suc n) (x ∷ xs) ys y h = drop-append n xs ys y (omega arith)

copy_count-long : (n : ℕ) → 41 ≤ n → n < 2147483648 → copy_count n ≡ min (n - 41) 5
unfolding copy_count
copy_count-long n long small =
    let exact : ((n + 18446744073709551616 - 41) % 18446744073709551616) % 4294967296 ≡ n - 41 =
      omega arith in
    rw exact (ground arith)

copy_network_id-long :
    (cn : List ℕ)
    → 41 ≤ length cn
    → length cn < 2147483648
    → copy_network_id cn ≡ some (take (min (length cn - 41) 5) (drop 41 cn))
unfolding copy_network_id
copy_network_id-long cn long small =
    let count = copy_count-long (length cn) long small in
    let fits : leb (min (length cn - 41) 5) 6 && leb 41 (length cn) ≡ true = ground arith in
    rw (count, fits) refl

-- The common name `nva-UUID@ID` of a node, with a UUID of 36 bytes and a network identifier of at
-- most five, is read as that UUID and that identifier, in version 1.
pub cn2node_info-nva :
    (uuid network_id : List ℕ)
    → length uuid ≡ 36
    → length network_id ≤ 5
    → cn2node_info (nva ++ (uuid ++ (b'@' ∷ network_id)))
      ≡ node (record { uuid = uuid; network_uuid = []; network_id = network_id; v = 1 })
unfolding cn2node_info
cn2node_info-nva uuid network_id h h' =
    let len = length-append uuid (b'@' ∷ network_id) in
    let cn = nva ++ (uuid ++ (b'@' ∷ network_id)) in
    let copied = copy_network_id-long cn (omega arith) (omega arith) in
    let n : min (length (nva ++ (uuid ++ (b'@' ∷ network_id))) - 41) 5 ≡ length network_id =
      omega arith in
    rw (copied, n, take-append 36 uuid (b'@' ∷ network_id) h)
      (rw (
        drop-append 36 uuid network_id b'@' h,
        take_past (length network_id) network_id (omega arith),
      ))

-- The alternative name `UUID@NETWORK-UUID`, of two UUIDs of 36 bytes each, is read as its two
-- halves, in version 2.
pub altname2node_info_lem :
    (uuid network_uuid : List ℕ)
    → length uuid ≡ 36
    → length network_uuid ≡ 36
    → altname2node_info (uuid ++ (b'@' ∷ network_uuid))
      ≡ node (record { uuid = uuid; network_uuid = network_uuid; network_id = []; v = 2 })
unfolding altname2node_info
altname2node_info_lem uuid network_uuid h h' =
    let len = length-append uuid (b'@' ∷ network_uuid) in
    let long : ltb (length (uuid ++ (b'@' ∷ network_uuid))) 37 ≡ false = ground arith in
    rw (
      long,
      take-append 36 uuid (b'@' ∷ network_uuid) h,
      drop-append 36 uuid network_uuid b'@' h,
      take_past 36 network_uuid (omega arith),
    )
