-- ===== src/Cert.antt =====
-- libnvcore/src/cert.c: the names of certificates and the node that they stand for. A C string is
-- the list of its bytes before the terminator. What OpenSSL reads from a certificate is outside.
pub mod Names
use netvirt.Prelude.{
  ℕ, ◌+◌, ◌-◌, Bool, true, false, List, [], ◌∷◌, ◌||◌, ◌==◌, ◌&&◌, ◌%◌, leb, Option, none, some,
  ltb, if◌then◌else◌, take, drop, length,
}
use netvirt.Session.{NodeInfo}

-- `strncmp(cn, prefix, strlen(prefix)) == 0`
abbrev pub starts_with : List ℕ → List ℕ → Bool
starts_with cn [] = true
starts_with [] (y ∷ prefix) = false
starts_with (x ∷ cn) (y ∷ prefix) = x == y && starts_with cn prefix

abbrev pub nva : List ℕ
nva = b'n' ∷ b'v' ∷ b'a' ∷ b'-' ∷ []

abbrev pub dnc : List ℕ
dnc = b'd' ∷ b'n' ∷ b'c' ∷ b'-' ∷ []

abbrev pub nva2 : List ℕ
nva2 = b'n' ∷ b'v' ∷ b'a' ∷ b'2' ∷ b'-' ∷ []

-- NULL, an access past the end of the string or of a field, or the node.
pub data Parsed : Type 0 where
  invalid : Parsed
  undefined : Parsed
  node : NodeInfo → Parsed

-- `len`, as `strncpy` takes it: `strlen(cn) - 41` wraps in 64 bits and is cut to the 32 bits of an
-- `int`; one that is at least 2 ^ 31 there is negative, not above 5, and sign-extended to 64 bits.
unfoldable pub copy_count : ℕ → ℕ
copy_count strlen =
    let len = ((strlen + 18446744073709551616 - 41) % 18446744073709551616) % 4294967296 in
    if ltb len 2147483648
    then if ltb 5 len then 5 else len
    else 18446744073709551616 - 4294967296 + len

-- `strncpy(ninfo->network_id, cn+41, len)` fills all `count` bytes of a field of six, and reads from
-- within the string or its terminator; `none` is neither.
unfoldable pub copy_network_id : List ℕ → Option (List ℕ)
copy_network_id cn =
    let count = copy_count (length cn) in
    if leb count 6 && leb 41 (length cn) then some (take count (drop 41 cn)) else none

-- The type field is written and never read, and a NULL name, which is refused, does not occur.
unfoldable pub cn2node_info : List ℕ → Parsed
cn2node_info cn =
    if starts_with cn nva || starts_with cn dnc
    then elim (copy_network_id cn) [
      | none ↦ Parsed.undefined
      | some network_id ↦
          Parsed.node (record {
            uuid = take 36 (drop 4 cn);
            network_uuid = [];
            network_id = network_id;
            v = 1;
          })
    ]
    else if starts_with cn nva2
    then node (record { uuid = []; network_uuid = take 36 (drop 5 cn); network_id = []; v = 2 })
    else invalid

unfoldable pub altname2node_info : List ℕ → Parsed
altname2node_info altn =
    if ltb (length altn) 37
    then undefined
    else node (record {
      uuid = take 36 altn;
      network_uuid = take 36 (drop 37 altn);
      network_id = [];
      v = 2;
    })
