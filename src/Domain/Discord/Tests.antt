-- ===== src/Domain/Discord/Tests.antt =====
-- Permission resolution at concrete guilds: the cases of the tests of crates/domain/src/discord.rs.
use ldktela.Base.{◌+◌, ◌≡◌, refl, Bool, true, false, List, [], ◌∷◌, ◌||◌, ◌==◌, arith}
use ldktela.Base.Bits.{test, complement}
use ldktela.Domain.Discord.{
  GuildRef, MemberRef, Overwrite, role, member, view_channel, connect, resolve, can_view, contains,
  base_permissions, add_roles, add_role, everyone_permissions, apply_channel, apply_overwrite,
  is_member, apply_masks, is_everyone, accumulate, is_member_role, can_join_room,
}
use ldktela.Domain.Discord.Resolution.{granted, precedence, test-resolve}
use ldktela.Domain.Discord.Order.{channel_of, resolve-swap}
use ldktela.Domain.Discord.Access.{holds, resolve_answers}

-- @everyone may view and connect; roles 200 and 201 grant nothing.
abbrev guild : GuildRef
guild = record {
  id = 100;
  owner_id = 1;
  roles =
      record { id = 100; permissions = view_channel + connect }
      ∷ record { id = 200; permissions = 0 }
      ∷ record { id = 201; permissions = 0 }
      ∷ [];
}

abbrev someone : MemberRef
someone = record { user_id = 2; role_ids = 200 ∷ 201 ∷ [] }

abbrev denied_to_a : Overwrite
denied_to_a = record { target_id = 200; kind = role; allow = 0; deny = connect }

abbrev allowed_to_b : Overwrite
allowed_to_b = record { target_id = 201; kind = role; allow = connect; deny = 0 }

abbrev member_denied : Overwrite
member_denied = record { target_id = 2; kind = member; allow = 0; deny = connect }

joins : List Overwrite → Bool
unfolding can_join_room resolve base_permissions add_roles add_role everyone_permissions
    apply_channel apply_overwrite is_member apply_masks is_everyone complement accumulate
    is_member_role contains
joins os = can_join_room (resolve guild someone (channel_of 300 os))

-- An allow on one role beats a deny on another; the member's own deny beats both.
role_allow_wins : joins (denied_to_a ∷ allowed_to_b ∷ []) ≡ true
unfolding joins
role_allow_wins = refl

member_deny_wins : joins (allowed_to_b ∷ member_denied ∷ []) ≡ false
unfolding joins
member_deny_wins = refl

test-resolve_example :
    test 20 (resolve guild someone (channel_of 300 (allowed_to_b ∷ member_denied ∷ []))) ≡ (
      2 == 1
      || granted 3 guild someone
      || precedence 20 guild someone (allowed_to_b ∷ member_denied ∷ []))
test-resolve_example =
    test-resolve 20 guild someone (channel_of 300 (allowed_to_b ∷ member_denied ∷ [])) (omega arith)
      (omega arith)

resolve-swap_example :
    resolve guild someone (channel_of 300 (denied_to_a ∷ allowed_to_b ∷ []))
    ≡ resolve guild someone (channel_of 300 (allowed_to_b ∷ denied_to_a ∷ []))
resolve-swap_example =
    resolve-swap guild someone 300 [] [] denied_to_a allowed_to_b (omega arith) (omega arith)
      (omega arith) (λ e. omega arith)

resolve_answers_example :
    can_view (resolve guild someone (channel_of 300 (member_denied ∷ [])))
    ≡ holds 10 guild someone (channel_of 300 (member_denied ∷ []))
resolve_answers_example =
    (resolve_answers guild someone (channel_of 300 (member_denied ∷ [])) (omega arith)).0
