-- ===== src/Stellar/SchemeId.antt =====
-- `SchemeId` of crates/pq-stellar/src/auth.rs.
use text.Mathlib.Text.{◌==◌}
use text.Mathlib.TextEquality.{eq_iff}
use soroban_ml_dsa.Prelude.{
  ℕ, ◌≡◌, ◌↔◌, ◌⊎◌, inl, inr, sym, arith, String, ◌||◌, Option, some, none, if◌then◌else◌,
}
use soroban_ml_dsa.Core.Traits.{PqScheme}

pub data SchemeId : Type 0 where
  ml_dsa44 ml_dsa65 ml_dsa87 slh_dsa_sha2_128s falcon512 : SchemeId

-- The values of the enum, `#[repr(u32)]`.
abbrev pub discriminant : SchemeId → ℕ
discriminant ml_dsa44 = 1
discriminant ml_dsa65 = 2
discriminant ml_dsa87 = 3
discriminant slh_dsa_sha2_128s = 4
discriminant falcon512 = 5

unfoldable pub from_name : String → Option SchemeId
from_name name =
    if name == "ML-DSA-44"
    then some ml_dsa44
    else if name == "ML-DSA-65"
    then some ml_dsa65
    else if name == "ML-DSA-87"
    then some ml_dsa87
    else if name == "SLH-DSA-SHA2-128s"
    then some slh_dsa_sha2_128s
    else if name == "FN-DSA-512" || name == "Falcon-512"
    then some falcon512
    else none

unfoldable pub of : PqScheme → Option SchemeId
unfolding from_name
of S = from_name S.name

-- The names that each scheme goes by.
abbrev pub IsNameOf : String → SchemeId → Type 0
IsNameOf name ml_dsa44 = name ≡ "ML-DSA-44"
IsNameOf name ml_dsa65 = name ≡ "ML-DSA-65"
IsNameOf name ml_dsa87 = name ≡ "ML-DSA-87"
IsNameOf name slh_dsa_sha2_128s = name ≡ "SLH-DSA-SHA2-128s"
IsNameOf name falcon512 = (name ≡ "FN-DSA-512") ⊎ (name ≡ "Falcon-512")

discriminant-injective : (a b : SchemeId) → discriminant a ≡ discriminant b → a ≡ b
discriminant-injective a b h = ground arith

from_name_sound : (name : String) (id : SchemeId) → from_name name ≡ some id → IsNameOf name id
unfolding from_name
from_name_sound name ml_dsa44 h = ground (arith, eq_iff name "ML-DSA-44")
from_name_sound name id h = ground (
  arith,
  eq_iff name "ML-DSA-65",
  eq_iff name "ML-DSA-87",
  eq_iff name "SLH-DSA-SHA2-128s",
  eq_iff name "FN-DSA-512",
  eq_iff name "Falcon-512",
)

from_name_complete : (name : String) (id : SchemeId) → IsNameOf name id → from_name name ≡ some id
unfolding from_name
from_name_complete name falcon512 (inl h) = rw h
from_name_complete name falcon512 (inr h) = rw h
from_name_complete name ml_dsa44 h = rw h
from_name_complete name ml_dsa65 h = rw h
from_name_complete name ml_dsa87 h = rw h
from_name_complete name slh_dsa_sha2_128s h = rw h

-- `from_name` finds a scheme exactly by the names of that scheme.
pub from_name_iff : (name : String) (id : SchemeId) → (from_name name ≡ some id) ↔ IsNameOf name id
from_name_iff name id = (from_name_sound name id, from_name_complete name id)

-- A stored discriminant identifies the scheme: two schemes that `of` gives the same discriminant
-- both go by names of the one id behind it.
pub from_name_stable :
    (a b : PqScheme) {i j : SchemeId}
    → of a ≡ some i
    → of b ≡ some j
    → discriminant i ≡ discriminant j
    → IsNameOf a.name i × IsNameOf b.name i
unfolding of
from_name_stable a b {i} {j} ha hb h =
    let e : j ≡ i = sym (discriminant-injective i j h) in
    (from_name_sound a.name i ha, from_name_sound b.name i (rw e at hb))
