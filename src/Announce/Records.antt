-- ===== src/Announce/Records.antt =====
-- The record that is to stand for each tag, through `apply_nickname` and `restore_nickname` of
-- crates/bot/src/announce.rs.
use ldktela.Base.{
  ℕ, Bool, true, false, not, Option, none, some, List, [], ◌∷◌, ◌++◌, find?, keep_if, any, ◌≡◌,
  refl, Bool-cases, Option-cases, arith, inl, inr,
}
use ldktela.Announce.{
  Name, RenameVerdict, allowed, owner, above_bot, tagged_nickname, is_tagged, base_name,
}
use ldktela.Announce.Tags.{
  LiveTag, of_member, remember, forget, Member, Discord, unwrap_or_default, Queries, World, verdict,
  tag_member, apply_nickname, edit_restored, restore_nickname,
}
use ldktela.Announce.Restoring.{
  Outcome, unchanged, renamed, refused, left_over, apply_nickname-Outcome, restore_unknown,
}

abbrev pub bears_tag : Option Name → Bool
bears_tag none = false
bears_tag (some nick) = is_tagged nick

untagged :
    (current : Option Name) (username nickname : Name)
    → tagged_nickname current username ≡ some nickname
    → bears_tag current ≡ false
unfolding tagged_nickname base_name
untagged none username nickname h = refl
untagged (some nick) username nickname h = elim (Bool-cases (is_tagged nick)) [
  | inl e ↦ cc
  | inr e ↦ e
]

tagged_already :
    (current : Option Name) (username : Name)
    → bears_tag current ≡ true
    → tagged_nickname current username ≡ none
unfolding tagged_nickname base_name
tagged_already none username h = cc
tagged_already (some nick) username h = rw h refl

module _ (guild user : ℕ) where
  any-append_last :
      (rows : List LiveTag) (tag : LiveTag)
      → of_member guild user tag ≡ true
      → any (of_member guild user) (rows ++ (tag ∷ [])) ≡ true
  any-append_last [] tag h = rw h refl
  any-append_last (row ∷ rows) tag h = ground (arith, any-append_last rows tag h)

  any-remember :
      (rows : List LiveTag) (previous : Option Name) (at : ℕ)
      → any (of_member guild user) (remember rows guild user previous at) ≡ true
  unfolding remember of_member
  any-remember rows previous at = elim (Bool-cases (any (of_member guild user) rows)) [
    | inl e ↦ rw e e
    | inr e ↦ rw e (any-append_last rows _ (ground arith))
  ]

  find-keep_if :
      (rows : List LiveTag)
      → find? (of_member guild user) (keep_if (λ tag. not (of_member guild user tag)) rows) ≡ none
  find-keep_if [] = refl
  find-keep_if (tag ∷ rows) = ground (arith, find-keep_if rows)

module _ (d : Discord) (guild user : ℕ) where
  -- Whoever Discord shows with a tag has a record.
  abbrev pub Recorded : World d → Type 0
  Recorded w =
      (m : Member)
      → d.member w.discord guild user ≡ some m
      → bears_tag m.nick ≡ true
      → any (of_member guild user) w.rows ≡ true

  -- However a call of `apply_nickname` ends (a query fails, Discord refuses the edit, the member may
  -- not be renamed), a member whose tag had a record before has one after.
  pub apply_nickname-Recorded :
      (q : Queries) (at : ℕ) (w : World d)
      → Recorded w
      → Recorded (apply_nickname d q at w guild user)
  unfolding apply_nickname
  apply_nickname-Recorded q at w h = elim (Option-cases (d.member w.discord guild user)) [
    | inl e ↦ rw (apply_nickname, e) h
    | inr (m, e) ↦ ended m e _ (apply_nickname-Outcome d q at guild user w m e)
  ]
    where
      ended :
          (m : Member)
          → d.member w.discord guild user ≡ some m
          → (v : World d) → Outcome d q at guild user w m v
          → Recorded v
      ended m e _ unchanged = h
      ended m e _ (renamed t s) = λ n k b. any-remember guild user w.rows m.nick at
      ended m e _ (refused t) = λ n k b. cc (untagged m.nick m.name _ t)
      ended m e _ (left_over t c) = λ n k b. any-remember guild user w.rows m.nick at

  taken : World d → World d
  taken w = record w { rows = (forget w.rows guild user).1 }

  gone : (rows : List LiveTag) → find? (of_member guild user) (forget rows guild user).1 ≡ none
  unfolding forget
  gone rows = find-keep_if guild user rows

  refused_state :
      (q : Queries) (w : World d) (tag : LiveTag)
      → find? (of_member guild user) w.rows ≡ some tag
      → q.clears user ≡ true
      → d.edit_member w.discord guild user (unwrap_or_default tag.previous_nick) ≡ none
      → restore_nickname d q w guild user ≡ taken w
  unfolding restore_nickname edit_restored forget taken
  refused_state q w tag f c e = rw (c, f, edit_restored, e) refl

  apply_tagged :
      (q : Queries) (at : ℕ) (w : World d) (m : Member)
      → d.member w.discord guild user ≡ some m
      → bears_tag m.nick ≡ true
      → apply_nickname d q at w guild user ≡ w
  unfolding apply_nickname tag_member
  apply_tagged q at w m h b = rw (apply_nickname, h) (by_verdict (verdict d w.discord guild m))
    where
      by_verdict :
          (v : RenameVerdict)
          → elim v as (λ _. World d) [
            | allowed ↦ tag_member d q at w guild user m
            | owner ↦ w
            | above_bot ↦ w
          ]
            ≡ w
      by_verdict allowed = rw (tag_member, tagged_already m.nick m.name b) refl
      by_verdict owner = refl
      by_verdict above_bot = refl

  -- Where Discord refuses the old nickname of a recorded member, the record is gone and Discord is as
  -- it was. If the member still bears the tag, nothing that the program does later takes it off:
  -- restoring and applying again, whatever the queries answer, change nothing.
  pub restore_nickname_refused :
      (q : Queries) (w : World d) (tag : LiveTag) (m : Member)
      → find? (of_member guild user) w.rows ≡ some tag
      → q.clears user ≡ true
      → d.edit_member w.discord guild user (unwrap_or_default tag.previous_nick) ≡ none
      → d.member w.discord guild user ≡ some m
      → bears_tag m.nick ≡ true
      → let after = restore_nickname d q w guild user in
        (after.discord ≡ w.discord)
        × (find? (of_member guild user) after.rows ≡ none)
        × ((later : Queries) → restore_nickname d later after guild user ≡ after)
        × ((later : Queries) (at : ℕ) → apply_nickname d later at after guild user ≡ after)
  unfolding taken
  restore_nickname_refused q w tag m f c e h b = rw (refused_state q w tag f c e) (
    refl,
    gone w.rows,
    λ later. restore_unknown d later 0 guild user (taken w) (gone w.rows),
    λ later at. apply_tagged later at (taken w) m h b,
  )
