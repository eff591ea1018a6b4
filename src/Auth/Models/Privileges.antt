-- ===== src/Auth/Models/Privileges.antt =====
-- The hierarchy of the roles against the permissions that they carry.
use falx_v.Base.{◌≤◌, ◌≡◌, refl, Bool, true, List, [], ◌&&◌, ◌∷◌, arith}
use falx_v.Auth.Models.{
  Role, super_admin, admin, senior_analyst, analyst, viewer, other_role, level, Permission, code_of,
  role_permissions, contains, has_permission,
}

contains-code :
    (ys : List Permission) (p q : Permission)
    → code_of p ≡ code_of q
    → contains ys p ≡ contains ys q
unfolding contains
contains-code [] p q e = refl
contains-code (y ∷ ys) p q e = ground (arith, contains-code ys p q e)

-- Whether the second list contains each permission of the first.
covers : List Permission → List Permission → Bool
covers [] ys = true
covers (x ∷ xs) ys = contains ys x && covers xs ys

contains-covers :
    (xs ys : List Permission) (p : Permission)
    → covers xs ys ≡ true
    → contains xs p ≡ true
    → contains ys p ≡ true
unfolding contains covers
contains-covers [] ys p a h = absurd (ground arith)
contains-covers (x ∷ xs) ys p a h = ground (arith, contains-covers xs ys p, contains-code ys x p)

-- The permissions of a role are among those of every role of at least its level.
covers-role_permissions :
    (r s : Role) → level s ≤ level r → covers (role_permissions s) (role_permissions r) ≡ true
unfolding level contains code_of role_permissions covers
covers-role_permissions super_admin (other_role u) h = refl
covers-role_permissions super_admin super_admin h = refl
covers-role_permissions super_admin admin h = refl
covers-role_permissions super_admin senior_analyst h = refl
covers-role_permissions super_admin analyst h = refl
covers-role_permissions super_admin viewer h = refl
covers-role_permissions admin (other_role u) h = refl
covers-role_permissions admin super_admin h = absurd (omega arith)
covers-role_permissions admin admin h = refl
covers-role_permissions admin senior_analyst h = refl
covers-role_permissions admin analyst h = refl
covers-role_permissions admin viewer h = refl
covers-role_permissions senior_analyst (other_role u) h = refl
covers-role_permissions senior_analyst super_admin h = absurd (omega arith)
covers-role_permissions senior_analyst admin h = absurd (omega arith)
covers-role_permissions senior_analyst senior_analyst h = refl
covers-role_permissions senior_analyst analyst h = refl
covers-role_permissions senior_analyst viewer h = refl
covers-role_permissions analyst (other_role u) h = refl
covers-role_permissions analyst super_admin h = absurd (omega arith)
covers-role_permissions analyst admin h = absurd (omega arith)
covers-role_permissions analyst senior_analyst h = absurd (omega arith)
covers-role_permissions analyst analyst h = refl
covers-role_permissions analyst viewer h = refl
covers-role_permissions viewer (other_role u) h = refl
covers-role_permissions viewer super_admin h = absurd (omega arith)
covers-role_permissions viewer admin h = absurd (omega arith)
covers-role_permissions viewer senior_analyst h = absurd (omega arith)
covers-role_permissions viewer analyst h = absurd (omega arith)
covers-role_permissions viewer viewer h = refl
covers-role_permissions (other_role t) (other_role u) h = refl
covers-role_permissions (other_role t) super_admin h = absurd (omega arith)
covers-role_permissions (other_role t) admin h = absurd (omega arith)
covers-role_permissions (other_role t) senior_analyst h = absurd (omega arith)
covers-role_permissions (other_role t) analyst h = absurd (omega arith)
covers-role_permissions (other_role t) viewer h = absurd (omega arith)

-- A role whose level is at least that of another has every permission of the other.
pub has_permission-level :
    (r s : Role) (p : Permission)
    → level s ≤ level r
    → has_permission s p ≡ true
    → has_permission r p ≡ true
unfolding has_permission
has_permission-level r s p h e =
    contains-covers (role_permissions s) (role_permissions r) p (covers-role_permissions r s h) e
