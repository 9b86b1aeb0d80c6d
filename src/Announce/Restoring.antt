-- ===== src/Announce/Restoring.antt =====
-- What tagging and restoring a member leave, for `apply_nickname` and `restore_nickname` of
-- crates/bot/src/announce.rs.
use ldktela.Base.{
  ℕ, true, false, not, Option, none, some, List, [], ◌∷◌, ◌++◌, find?, keep_if, any, ◌≡◌, ◌≢◌, refl,
  ap, ◌∙◌, Bool-cases, Option-cases, arith, inl, inr,
}
use ldktela.Announce.{Name, RenameVerdict, allowed, owner, above_bot, tagged_nickname}
use ldktela.Announce.Tags.{
  LiveTag, of_member, remember, forget, Member, Discord, unwrap_or_default, Queries, World, verdict,
  edit_tagged, tag_member, apply_nickname, edit_restored, restore_nickname,
}

-- A string that is empty is how a request says that there is no nickname.
abbrev pub shown : Name → Option Name
shown [] = none
shown (c ∷ cs) = some (c ∷ cs)

shown-unwrap_or_default :
    (nick : Option Name) → nick ≢ some [] → shown (unwrap_or_default nick) ≡ nick
unfolding unwrap_or_default
shown-unwrap_or_default none h = refl
shown-unwrap_or_default (some []) h = absurd (h refl)
shown-unwrap_or_default (some (c ∷ cs)) h = refl

module _ (guild user : ℕ) where
  abbrev tag_of : Option Name → ℕ → LiveTag
  tag_of previous at = record {
    discord_guild_id = guild;
    discord_user_id = user;
    previous_nick = previous;
    tagged_at = at;
  }

  any-find :
      (rows : List LiveTag)
      → find? (of_member guild user) rows ≡ none
      → any (of_member guild user) rows ≡ false
  any-find [] h = refl
  any-find (tag ∷ rows) h = ground (arith, any-find rows)

  keep_if-find :
      (rows : List LiveTag)
      → find? (of_member guild user) rows ≡ none
      → keep_if (λ tag. not (of_member guild user tag)) rows ≡ rows
  keep_if-find [] h = refl
  keep_if-find (tag ∷ rows) h = ground (arith, keep_if-find rows)

  own : (previous : Option Name) (at : ℕ) → of_member guild user (tag_of previous at) ≡ true
  unfolding of_member
  own previous at = ground arith

  forget-append :
      (rows : List LiveTag) (previous : Option Name) (at : ℕ)
      → find? (of_member guild user) rows ≡ none
      → forget (rows ++ (tag_of previous at ∷ [])) guild user ≡ (some (tag_of previous at), rows)
  unfolding forget
  forget-append [] previous at h = ground (arith, own previous at)
  forget-append (tag ∷ rows) previous at h = ground (arith, forget-append rows previous at)

  pub forget-remember :
      (rows : List LiveTag) (previous : Option Name) (at : ℕ)
      → find? (of_member guild user) rows ≡ none
      → forget (remember rows guild user previous at) guild user ≡ (some (tag_of previous at), rows)
  unfolding remember
  forget-remember rows previous at h = rw (any-find rows h) (forget-append rows previous at h)

  pub forget-none :
      (rows : List LiveTag)
      → find? (of_member guild user) rows ≡ none
      → forget rows guild user ≡ (none, rows)
  unfolding forget
  forget-none rows h = rw (h, keep_if-find rows h) refl

module _ (d : Discord) (q : Queries) (at guild user : ℕ) where
  -- The ways a call of `apply_nickname` can end, for a member that Discord knows.
  pub data Outcome (w : World d) (m : Member) : World d → Type 0 where
    unchanged : Outcome w m w
    renamed :
        {nickname : Name} {s : d.State}
        → tagged_nickname m.nick m.name ≡ some nickname
        → d.edit_member w.discord guild user nickname ≡ some s
        → Outcome w m (record { rows = remember w.rows guild user m.nick at; discord = s })
    refused :
        {nickname : Name}
        → tagged_nickname m.nick m.name ≡ some nickname
        → Outcome w m
            (record w { rows = (forget (remember w.rows guild user m.nick at) guild user).1 })
    left_over :
        {nickname : Name}
        → tagged_nickname m.nick m.name ≡ some nickname
        → q.clears user ≡ false
        → Outcome w m (record w { rows = remember w.rows guild user m.nick at })

  edit-Outcome :
      (w : World d) (m : Member) (nickname : Name)
      → tagged_nickname m.nick m.name ≡ some nickname
      → Outcome w m (
          edit_tagged d
            (q.clears user)
            (record w { rows = remember w.rows guild user m.nick at })
            guild
            user
            nickname)
  unfolding edit_tagged
  edit-Outcome w m nickname t = elim (Option-cases (d.edit_member w.discord guild user nickname)) [
    | inl e ↦ elim (Bool-cases (q.clears user)) [
      | inl c ↦ rw (edit_tagged, e, c) (refused t)
      | inr c ↦ rw (edit_tagged, e, c) (left_over t c)
    ]
    | inr (s, e) ↦ rw (edit_tagged, e) (renamed t e)
  ]

  tag-Outcome : (w : World d) (m : Member) → Outcome w m (tag_member d q at w guild user m)
  unfolding tag_member
  tag-Outcome w m = elim (Option-cases (tagged_nickname m.nick m.name)) [
    | inl e ↦ rw (tag_member, e) unchanged
    | inr (nickname, e) ↦ elim (Bool-cases (q.saves user)) [
      | inl h ↦ rw (tag_member, e, h) (edit-Outcome w m nickname e)
      | inr h ↦ rw (tag_member, e, h) unchanged
    ]
  ]

  pub apply_nickname-Outcome :
      (w : World d) (m : Member)
      → d.member w.discord guild user ≡ some m
      → Outcome w m (apply_nickname d q at w guild user)
  unfolding apply_nickname
  apply_nickname-Outcome w m h = rw (apply_nickname, h) (by_verdict (verdict d w.discord guild m))
    where
      by_verdict :
          (v : RenameVerdict)
          → Outcome w m (elim v as (λ _. World d) [
            | allowed ↦ tag_member d q at w guild user m
            | owner ↦ w
            | above_bot ↦ w
          ])
      by_verdict allowed = tag-Outcome w m
      by_verdict owner = unchanged
      by_verdict above_bot = unchanged

  pub restore_unknown :
      (w : World d)
      → find? (of_member guild user) w.rows ≡ none
      → restore_nickname d q w guild user ≡ w
  unfolding restore_nickname
  restore_unknown w h =
      rw (forget-none guild user w.rows h)
        (elim (Bool-cases (q.clears user)) [ inl c ↦ rw c refl | inr c ↦ rw c refl ])

  restore_known :
      (w : World d) (tag : LiveTag) (rows : List LiveTag) (s : d.State)
      → q.clears user ≡ true
      → forget w.rows guild user ≡ (some tag, rows)
      → d.edit_member w.discord guild user (unwrap_or_default tag.previous_nick) ≡ some s
      → restore_nickname d q w guild user ≡ record { rows = rows; discord = s }
  unfolding restore_nickname edit_restored
  restore_known w tag rows s c f e =
      rw (c, f, edit_restored, e)
        (ap (λ (r : List LiveTag). record { rows = r; discord = s }) (ap (λ p. p.1) f))

  -- An edit that Discord takes is what the member is then shown with.
  module _
      (edited : (s t : d.State) (m : Member) (nickname : Name)
        → d.member s guild user ≡ some m
        → d.edit_member s guild user nickname ≡ some t
        → d.member t guild user ≡ some (record m { nick = shown nickname })) where
    -- Restoring puts back what tagging found. Discord shows the member, whose nickname is not the
    -- empty text, shows whom it edits with the new nickname, and takes the old nickname back whenever it
    -- took the tag; no record of the member is left over; and the query that deletes it is answered. Then
    -- a call of `apply_nickname` and a call of `restore_nickname` leave the member and the table as they
    -- were, whether or not the member was allowed a tag, the table took the record or Discord took the
    -- edit.
    pub restore_nickname-apply_nickname :
        (w : World d) (m : Member)
        → d.member w.discord guild user ≡ some m
        → m.nick ≢ some []
        → find? (of_member guild user) w.rows ≡ none
        → q.clears user ≡ true
        → ((s : d.State) (nickname : Name)
            → d.edit_member w.discord guild user nickname ≡ some s
            → (t : d.State) × (d.edit_member s guild user (unwrap_or_default m.nick) ≡ some t))
        → let after = restore_nickname d q (apply_nickname d q at w guild user) guild user in
          (d.member after.discord guild user ≡ some m) × (after.rows ≡ w.rows)
    restore_nickname-apply_nickname w m h named fresh clears willing =
        returns (apply_nickname d q at w guild user) (apply_nickname-Outcome w m h)
      where
        Returned : World d → Type 0
        Returned v =
            let after = restore_nickname d q v guild user in
            (d.member after.discord guild user ≡ some m) × (after.rows ≡ w.rows)

        same_as_before : Returned w
        same_as_before = rw (restore_unknown w fresh) (h, refl)

        returns : (v : World d) → Outcome w m v → Returned v
        returns _ unchanged = same_as_before
        returns _ (renamed {nickname} {s} t e) =
            let (t2, e2) = willing s nickname e in
            let tagged : World d = record {
              rows = remember w.rows guild user m.nick at;
              discord = s;
            } in
            let taken = edited w.discord s m nickname h e in
            let again = edited s t2 (record m { nick = shown nickname }) _ taken e2 in
            let named_again =
              ap (λ (n : Option Name). some (record m { nick = n }))
                (shown-unwrap_or_default m.nick named) in
            rw
              (restore_known tagged (tag_of guild user m.nick at) w.rows t2 clears
                (forget-remember guild user w.rows m.nick at fresh) e2)
              (again ∙ named_again, refl)
        returns _ (refused t) =
            rw (ap (λ p. p.1) (forget-remember guild user w.rows m.nick at fresh)) same_as_before
        returns _ (left_over t c) = cc
