-- ===== src/Auth/Reuse.antt =====
-- Any interleaving of logins, rotations, logouts and housekeeping (crates/api/src/auth/session.rs).
use ldktela.Base.{
  ℕ, ◌+◌, ◌*◌, ◌≤◌, ◌≡◌, refl, inl, inr, Bool, not, List, [], ◌∷◌, ltb, ◌==◌, keep_if, arith,
  Option-cases,
}
use ldktela.Auth.{
  RefreshTokenRow, Phase, presented, checked, reused, won, answered, Draw, find_by_hash,
  revoke_where, revoke_family, revoke_all_for_user, delete_expired, issue_session, revoke_session,
}
use ldktela.Auth.Family.{
  live, is_live, SameFamily, Keyed, live-revoke_where-le, live-keep_if-le, revoke-SameFamily,
  keep_if-SameFamily, revoke-Keyed, keep_if-Keyed,
}
use ldktela.Auth.Requests.{pend, pending, Tracked, Unborn, Apart, AllApart, issue_pair-live}
use ldktela.Auth.Tracking.{Keeps, Keeps-Tracked, issue_pair-Keyed, issue_pair-Track}
use ldktela.Auth.Interleaving.{
  Server, idle, Event, arrives, queries, logs_in, logs_out, signs_out_everywhere, cleans_up, step,
  run, Drawn, AllDrawn, query_at-live, query_at-Keyed, query_at-Tracked,
}

record Inv (s : Server) : Type 0 where
  keyed : Keyed s.tokens
  tracked : Tracked s.tokens s.requests
  single : (f : ℕ) → live f s.tokens + pending f s.requests ≤ 1

query-Inv :
    (s : Server) (d : Draw) (i : ℕ) → Drawn s (queries i d) → Inv s → Inv (step s (queries i d))
unfolding step
query-Inv s d i a v = record {
  keyed = query_at-Keyed s.tokens d i s.requests v.keyed;
  tracked = query_at-Tracked s.tokens d i s.requests v.keyed a v.tracked;
  single = λ f. omega (arith, query_at-live f s.tokens d i s.requests v.tracked, v.single f);
}

same-Tracked :
    (rows rows' : List RefreshTokenRow) (ps : List Phase)
    → ((i fam : ℕ) → SameFamily i fam rows → SameFamily i fam rows')
    → Tracked rows ps
    → Tracked rows' ps
same-Tracked rows rows' [] k t = tt
same-Tracked rows rows' (presented hash ∷ ps) k t = (tt, same-Tracked rows rows' ps k t.1)
same-Tracked rows rows' (checked row ∷ ps) k t =
    (k row.id row.family_id t.0, same-Tracked rows rows' ps k t.1)
same-Tracked rows rows' (reused row ∷ ps) k t = (tt, same-Tracked rows rows' ps k t.1)
same-Tracked rows rows' (won row ∷ ps) k t = (tt, same-Tracked rows rows' ps k t.1)
same-Tracked rows rows' (answered a ∷ ps) k t = (tt, same-Tracked rows rows' ps k t.1)

-- A write that only takes live tokens away.
fewer-Inv :
    (s : Server) (rows : List RefreshTokenRow)
    → Keyed rows
    → ((i fam : ℕ) → SameFamily i fam s.tokens → SameFamily i fam rows)
    → ((f : ℕ) → live f rows ≤ live f s.tokens)
    → Inv s
    → Inv (record s { tokens = rows })
fewer-Inv s rows keyed same less v = record {
  keyed = keyed;
  tracked = same-Tracked s.tokens rows s.requests same v.tracked;
  single = λ f. omega (arith, less f, v.single f);
}

revoke-Inv :
    (s : Server) (p : RefreshTokenRow → Bool) (now : ℕ)
    → Inv s
    → Inv (record s { tokens = revoke_where p s.tokens now })
revoke-Inv s p now v =
    fewer-Inv s (revoke_where p s.tokens now) (revoke-Keyed now p s.tokens v.keyed)
      (λ i fam h. revoke-SameFamily i fam now p s.tokens h)
      (λ f. live-revoke_where-le f now p s.tokens) v

Unborn-live : (id : ℕ) (rows : List RefreshTokenRow) → Unborn id rows → live id rows ≡ 0
unfolding live is_live
Unborn-live id [] h = refl
Unborn-live id (r ∷ rows) h = ground (arith, Unborn-live id rows h.1)

Apart-pend : (id : ℕ) (p : Phase) → Apart id p → pend id p ≡ 0
unfolding pend
Apart-pend id (presented hash) h = refl
Apart-pend id (checked row) h = refl
Apart-pend id (reused row) h = refl
Apart-pend id (won row) h = ground arith
Apart-pend id (answered a) h = refl

AllApart-pending : (id : ℕ) (ps : List Phase) → AllApart id ps → pending id ps ≡ 0
unfolding pending
AllApart-pending id [] h = refl
AllApart-pending id (p ∷ ps) h = omega (arith, Apart-pend id p h.0, AllApart-pending id ps h.1)

login-Inv :
    (s : Server) (d : Draw) (user : ℕ)
    → Drawn s (logs_in d user)
    → Inv s
    → Inv (step s (logs_in d user))
unfolding step issue_session Keeps
login-Inv s d user new v = record {
  keyed = issue_pair-Keyed s.tokens d d.token_id d.token_id user v.keyed;
  tracked =
      Keeps-Tracked d.token_id s.tokens _ s.requests
        (λ i fam apart h. issue_pair-Track i fam s.tokens d d.token_id d.token_id user apart h)
        new.1 v.tracked;
  single = λ f. ground (
    arith,
    issue_pair-live f s.tokens d d.token_id d.token_id user,
    Unborn-live d.token_id s.tokens new.0,
    AllApart-pending d.token_id s.requests new.1,
    v.single f,
  );
}

logout-Inv : (s : Server) (hash now : ℕ) → Inv s → Inv (step s (logs_out hash now))
unfolding step revoke_session revoke_family
logout-Inv s hash now v = elim (Option-cases (find_by_hash s.tokens hash)) [
  | inl e ↦ rw (e, revoke_session) v
  | inr (row, e) ↦ rw (e, revoke_session) (revoke-Inv s (λ r. r.family_id == row.family_id) now v)
]

step-Inv : (s : Server) (e : Event) → Drawn s e → Inv s → Inv (step s e)
unfolding step pending pend revoke_all_for_user delete_expired
step-Inv s (arrives hash) a v = record {
  keyed = v.keyed;
  tracked = (tt, v.tracked);
  single = λ f. omega (arith, v.single f);
}
step-Inv s (queries i d) a v = query-Inv s d i a v
step-Inv s (logs_in d user) a v = login-Inv s d user a v
step-Inv s (logs_out hash now) a v = logout-Inv s hash now v
step-Inv s (signs_out_everywhere user now) a v = revoke-Inv s (λ r. r.user_id == user) now v
step-Inv s (cleans_up days now) a v =
    fewer-Inv s (keep_if (λ r. not (ltb (r.expires_at + days * 86400) now)) s.tokens)
      (keep_if-Keyed _ s.tokens v.keyed) (λ i fam h. keep_if-SameFamily i fam _ s.tokens h)
      (λ f. live-keep_if-le f _ s.tokens) v

run-Inv : (s : Server) (es : List Event) → AllDrawn s es → Inv s → Inv (run s es)
unfolding run
run-Inv s [] a v = v
run-Inv s (e ∷ es) a v = run-Inv (step s e) es a.1 (step-Inv s e a.0 v)

-- Whatever logins, rotations, logouts and clean-ups run, and however the queries of the requests
-- under way interleave, no family ever has two live tokens (neither consumed nor revoked), where
-- every id that is drawn is new.
pub live-run : (f : ℕ) (es : List Event) → AllDrawn idle es → live f (run idle es).tokens ≤ 1
unfolding live pending
live-run f es a =
    let v = run-Inv idle es a (record { keyed = tt; tracked = tt; single = λ g. omega arith }) in
    omega (arith, v.single f)
