-- ===== src/Domain/Discord/Access.antt =====
-- The three questions that the product asks of a resolved mask (crates/domain/src/discord.rs).
use ldktela.Base.{ℕ, ◌≡◌, refl, Bool, ◌&&◌, ◌||◌, ◌==◌, arith}
use ldktela.Base.Bits.{contains_bit}
use ldktela.Domain.Discord.{
  GuildRef, MemberRef, ChannelRef, can_view, can_join_room, can_publish, contains, resolve,
}
use ldktela.Domain.Discord.Resolution.{DeniesFit, granted, precedence, test-resolve}

-- Whether a permission is held in a channel, by the order of precedence.
unfoldable pub holds : ℕ → GuildRef → MemberRef → ChannelRef → Bool
holds i guild m channel =
    m.user_id == guild.owner_id || granted 3 guild m || precedence i guild m channel.overwrites

-- A member may view a channel exactly if VIEW_CHANNEL is held there by precedence; may join its room
-- exactly if CONNECT is held too; and may publish exactly if STREAM is held too. The masks that
-- overwrites deny are `u64`s.
pub resolve_answers :
    (guild : GuildRef) (m : MemberRef) (channel : ChannelRef)
    → DeniesFit channel.overwrites
    → (can_view (resolve guild m channel) ≡ holds 10 guild m channel)
      × (can_join_room (resolve guild m channel)
          ≡ (holds 10 guild m channel && holds 20 guild m channel))
      × (can_publish (resolve guild m channel)
          ≡ (holds 10 guild m channel && holds 20 guild m channel && holds 9 guild m channel))
unfolding can_publish contains holds
resolve_answers guild m channel h =
    let p = resolve guild m channel in
    rw
      (
        contains_bit 10 p,
        contains_bit 20 p,
        contains_bit 9 p,
        test-resolve 10 guild m channel (omega arith) h,
        test-resolve 20 guild m channel (omega arith) h,
        test-resolve 9 guild m channel (omega arith) h,
      )
      (refl, refl, refl)
