-- ===== src/Gateway/Ready/Entered.antt =====
-- Which rooms `current_room` of crates/api/src/gateway/ready.rs may name.
use ldktela.Base.{
  ℕ, true, false, Option, none, some, ◌≡◌, refl, ◌⊎◌, inl, inr, ap, ◌∙◌, Bool-cases, Option-cases,
}
use mathlib.Core.Path.{subst}
use mathlib.Core.Option.{some-injective}
use ldktela.Replica.{Replica, channel_info, voice_channel_of}
use ldktela.Presence.{Table, channel_of}
use ldktela.Gateway.Ready.{
  may_join, joinable, voice_room, in_voice, or_present, Room, room_at, current_room,
}

-- Whether a user without a Discord id, or with one, is in the voice of a channel and may join its room.
abbrev pub InVoice : Replica → Option ℕ → ℕ → Type 0
InVoice r none channel = true ≡ false
InVoice r (some user) channel =
    (voice_channel_of r user ≡ some channel) × (may_join r user channel ≡ true)

joinable-InVoice :
    (r : Replica) (user channel : ℕ) (o : Option ℕ)
    → voice_channel_of r user ≡ o
    → joinable r user o ≡ some channel
    → InVoice r (some user) channel
unfolding joinable
joinable-InVoice r user channel none e h = cc
joinable-InVoice r user channel (some c) e h = elim (Bool-cases (may_join r user c)) [
  | inl may ↦
      let same : c ≡ channel = some-injective c channel (rw may at h) in
      (e ∙ ap some same, subst (λ x. may_join r user x ≡ true) same may)
  | inr may_not ↦ let h' : none ≡ some channel = rw may_not at h in cc
]

in_voice-InVoice :
    (r : Replica) (discord : Option ℕ) (channel : ℕ)
    → in_voice r discord ≡ some channel
    → InVoice r discord channel
unfolding in_voice voice_room
in_voice-InVoice r none channel h = cc
in_voice-InVoice r (some user) channel h =
    joinable-InVoice r user channel (voice_channel_of r user) refl h

or_present-entered :
    (r : Replica) (rows : Table) (user : ℕ) (discord o : Option ℕ) (channel : ℕ)
    → in_voice r discord ≡ o
    → or_present rows user o ≡ some channel
    → InVoice r discord channel ⊎ (channel_of rows user ≡ some channel)
unfolding or_present
or_present-entered r rows user discord none channel e h = inr h
or_present-entered r rows user discord (some c) channel e h =
    inl (in_voice-InVoice r discord channel (e ∙ h))

room_at-known :
    (r : Replica) (o : Option ℕ) (room : Room)
    → room_at r o ≡ some room
    → (o ≡ some room.0) × (channel_info r room.0 ≡ some room.1)
unfolding room_at
room_at-known r none room h = cc
room_at-known r (some c) room h = elim (Option-cases (channel_info r c)) [
  | inl e ↦ let h' : none ≡ some room = rw (room_at, e) at h in cc
  | inr (info, e) ↦
      let same : (c, info) ≡ room = some-injective (c, info) room (rw (room_at, e) at h) in
      subst (λ x. (some c ≡ some x.0) × (channel_info r x.0 ≡ some x.1)) same (refl, e)
]

-- The room that READY names is one that the replica knows by that server and name; the user either is in
-- its voice channel and may join the room, or is recorded as present in it.
pub current_room-entered :
    (r : Replica) (rows : Table) (user : ℕ) (discord : Option ℕ) (room : Room)
    → current_room r rows user discord ≡ some room
    → (channel_info r room.0 ≡ some room.1)
      × (InVoice r discord room.0 ⊎ (channel_of rows user ≡ some room.0))
unfolding current_room
current_room-entered r rows user discord room h =
    let known = room_at-known r (or_present rows user (in_voice r discord)) room h in
    (known.1, or_present-entered r rows user discord (in_voice r discord) room.0 refl known.0)
