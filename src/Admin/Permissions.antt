-- ===== src/Admin/Permissions.antt =====
-- minisms/internal/adminauth/permissions.go. The set of allowed keys and the set of keys that were
-- seen are lists; labels and groups of the form are left out.
pub mod Laws
use mini_sms.Prelude.{Bool, true, false, not, ◌&&◌, ◌||◌, List, [], ◌∷◌, ◌++◌, any, if◌then◌else◌}
use mini_sms.Text.{Text, codes, text_eq, is_empty, trim_space}

-- The keys of AllAssignablePermissions, in its order.
abbrev pub assignable : List Text
assignable =
    codes "dashboard_stats"
    ∷ codes "carriers_view"
    ∷ codes "carriers_edit"
    ∷ codes "carriers_payment"
    ∷ codes "rate_groups_view"
    ∷ codes "rate_groups_edit"
    ∷ codes "rate_groups_manage"
    ∷ codes "routing_groups_view"
    ∷ codes "routing_groups_edit"
    ∷ codes "routing_groups_manage"
    ∷ codes "clients_view"
    ∷ codes "clients_edit"
    ∷ codes "clients_payment"
    ∷ codes "currencies_view"
    ∷ codes "currencies_edit"
    ∷ codes "sender_ids_view"
    ∷ codes "sender_ids_edit"
    ∷ codes "sms_logs_view"
    ∷ codes "simulate"
    ∷ []

abbrev pub holds : List Text → Text → Bool
holds keys k = any (λ j. text_eq j k) keys

-- HasPermission
unfoldable pub has_permission : Bool → List Text → Text → Bool
has_permission is_super perms key = if is_super then true else holds perms key

-- PermMap; a key that is absent reads as false
unfoldable pub perm_map : Bool → List Text → Text → Bool
unfolding has_permission
perm_map is_super perms key = holds assignable key && has_permission is_super perms key

-- Which keys the loop of ParsePermissionList passes over; `allowed` is the set of known keys.
abbrev pub is_passed_over : List Text → List Text → Text → Bool
is_passed_over allowed seen k = is_empty k || (not (holds allowed k) || holds seen k)

unfoldable pub parse_from : List Text → List Text → List Text → List Text
parse_from allowed seen [] = []
parse_from allowed seen (raw ∷ keys) =
    let k = trim_space raw in
    let skip = is_passed_over allowed seen k in
    let rest = parse_from allowed (if skip then seen else k ∷ seen) keys in
    if skip then rest else k ∷ rest

-- ParsePermissionList
unfoldable pub parse_permission_list : List Text → List Text
unfolding parse_from
parse_permission_list keys = parse_from assignable [] keys
