-- ===== src/Core/World/Keys.antt =====
-- core-service/internal/cache/keys.go
use Prim.Native.String.{◌++◌, count}
use text.Mathlib.TextLemmas.{append_cancel_left, append_cancel_right, length-append}
use seta_training.Prelude.{String, ◌≡◌, false, ◌==◌, arith, eq_iff, ap, refl}

unfoldable pub team_members_key : String → String
team_members_key team_id = "team:" ++ team_id ++ ":members"

unfoldable pub asset_key : String → String
asset_key asset_id = "asset:" ++ asset_id

unfoldable pub asset_acl_key : String → String
asset_acl_key asset_id = "asset:" ++ asset_id ++ ":acl"

-- Two teams have two keys.
pub team_members_key_injective : (a b : String) → team_members_key a ≡ team_members_key b → a ≡ b
unfolding team_members_key
team_members_key_injective a b h =
    append_cancel_right a b ":members"
      (append_cancel_left "team:" (a ++ ":members") (b ++ ":members") h)

pub asset_key_injective : (a b : String) → asset_key a ≡ asset_key b → a ≡ b
unfolding asset_key
asset_key_injective a b h = append_cancel_left "asset:" a b h

pub asset_acl_key_injective : (a b : String) → asset_acl_key a ≡ asset_acl_key b → a ≡ b
unfolding asset_acl_key
asset_acl_key_injective a b h =
    append_cancel_right a b ":acl" (append_cancel_left "asset:" (a ++ ":acl") (b ++ ":acl") h)

pub team_members_key-== : (a b : String) → (team_members_key a == team_members_key b) ≡ (a == b)
team_members_key-== a b = ground (
  arith,
  eq_iff a b,
  eq_iff (team_members_key a) (team_members_key b),
  team_members_key_injective a b,
)

pub asset_key-== : (a b : String) → (asset_key a == asset_key b) ≡ (a == b)
asset_key-== a b =
    ground (arith, eq_iff a b, eq_iff (asset_key a) (asset_key b), asset_key_injective a b)

pub asset_acl_key-== : (a b : String) → (asset_acl_key a == asset_acl_key b) ≡ (a == b)
asset_acl_key-== a b =
    ground
      (arith, eq_iff a b, eq_iff (asset_acl_key a) (asset_acl_key b), asset_acl_key_injective a b)

-- The key of an asset is not that of its grants.
asset_key-ne-asset_acl_key : (a : String) → ¬ (asset_acl_key a ≡ asset_key a)
unfolding asset_key asset_acl_key
asset_key-ne-asset_acl_key a h =
    let same = append_cancel_left "asset:" (a ++ ":acl") a h in
    omega (arith, ap count same, length-append a ":acl", four)
  where
    four : count ":acl" ≡ 4
    four = refl

pub asset_acl_key-apart : (a : String) → (asset_acl_key a == asset_key a) ≡ false
asset_acl_key-apart a =
    ground (arith, eq_iff (asset_acl_key a) (asset_key a), asset_key-ne-asset_acl_key a)
