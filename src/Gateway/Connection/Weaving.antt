-- ===== src/Gateway/Connection/Weaving.antt =====
-- What a resumed session's queue gets where others dispatch to it meanwhile: `resume` of
-- crates/api/src/gateway/mod.rs.
use ldktela.Base.{
  ℕ, suc, ◌+◌, ◌≤◌, ◌≡◌, refl, sym, ap, ◌∙◌, Bool, true, not, some, List, [], ◌∷◌, ◌++◌, map,
  length, leb, all, keep_if, Bool-cases, inl, inr, arith, length-append,
}
use ldktela.Protocol.{DispatchEvent, DispatchFrame, Frame, dispatched}
use ldktela.Gateway.Session
use ldktela.Gateway.Session.{Session}
use ldktela.Gateway.Session.History.{Call, event, step, run, numbered}
use ldktela.Gateway.Connection.{dispatch_all, joined, send_all}

-- A frame on the queue of a connection.
abbrev pub to_queue : ℕ → DispatchFrame → ℕ × Frame
to_queue outbox frame = (outbox, dispatched frame)

pub run-append : (s : Session) (cs ds : List Call) → run s (cs ++ ds) ≡ run (run s cs) ds
unfolding run
run-append s [] ds = refl
run-append s (c ∷ cs) ds = run-append (step s c) cs ds

pub map-append {ℓ κ} :
    {A : Type ℓ} {B : Type κ} (f : A → B) (xs ys : List A) → map f (xs ++ ys) ≡ map f xs ++ map f ys
map-append f [] ys = refl
map-append f (x ∷ xs) ys = ap (λ r. f x ∷ r) (map-append f xs ys)

keep_if-append {ℓ} :
    {A : Type ℓ} (p : A → Bool) (xs ys : List A)
    → keep_if p (xs ++ ys) ≡ keep_if p xs ++ keep_if p ys
keep_if-append p [] ys = refl
keep_if-append p (x ∷ xs) ys = elim (Bool-cases (p x)) [
  | inl e ↦ rw (keep_if, e) (ap (λ r. x ∷ r) (keep_if-append p xs ys))
  | inr e ↦ rw (keep_if, e) (keep_if-append p xs ys)
]

numbered-join :
    (n : ℕ) (es ds : List DispatchEvent)
    → numbered n (es ++ ds) ≡ numbered n es ++ numbered (n + length es) ds
unfolding numbered
numbered-join n [] ds = ap (λ (k : ℕ). numbered k ds) (omega arith)
numbered-join n (e ∷ es) ds =
    let place : ◌≡◌ {A = ℕ} (n + 1 + length es) (n + suc (length es)) = omega arith in
    ap (λ r. record { s = n + 1; event = e } ∷ r)
      (numbered-join (n + 1) es ds ∙ ap (λ (k : ℕ). numbered (n + 1) es ++ numbered k ds) place)

-- The dispatches of others, as calls in the life of the session.
pub dispatch_all-run :
    (s : Session) (es : List DispatchEvent) → (dispatch_all s es).0 ≡ run s (map event es)
unfolding dispatch_all run step
dispatch_all-run s [] = refl
dispatch_all-run s (e ∷ es) = dispatch_all-run (Session.dispatch s e).0 es

pub dispatch_all-seq :
    (s : Session) (es : List DispatchEvent) → (dispatch_all s es).0.seq ≡ s.seq + length es
unfolding dispatch_all Session.dispatch
dispatch_all-seq s [] = omega arith
dispatch_all-seq s (e ∷ es) = omega (arith, dispatch_all-seq (Session.dispatch s e).0 es)

dispatch_all-outbox :
    (s : Session) (es : List DispatchEvent) → (dispatch_all s es).0.outbox ≡ s.outbox
unfolding dispatch_all Session.dispatch
dispatch_all-outbox s [] = refl
dispatch_all-outbox s (e ∷ es) = dispatch_all-outbox (Session.dispatch s e).0 es

pub send_text-queue :
    (s : Session) (f : Frame) (outbox : ℕ)
    → s.outbox ≡ some outbox
    → Session.send_text s f ≡ (outbox, f) ∷ []
unfolding Session.send_text
send_text-queue s f outbox h = rw (Session.send_text, h) refl

dispatch_all-sent :
    (s : Session) (es : List DispatchEvent) (outbox : ℕ)
    → s.outbox ≡ some outbox
    → (dispatch_all s es).1 ≡ map (to_queue outbox) (numbered s.seq es)
unfolding dispatch_all Session.dispatch numbered
dispatch_all-sent s [] outbox h = refl
dispatch_all-sent s (e ∷ es) outbox h =
    let told : Session = (Session.dispatch s e).0 in
    let frame : DispatchFrame = record { s = s.seq + 1; event = e } in
    ap (λ r. r ++ (dispatch_all told es).1) (send_text-queue told (dispatched frame) outbox h)
    ∙ ap (λ r. to_queue outbox frame ∷ r) (dispatch_all-sent told es outbox h)

-- The replayed frames, with the events that are dispatched in the gaps before them numbered from `next`.
unfoldable pub woven : ℕ → List DispatchFrame → List (List DispatchEvent) → List DispatchFrame
woven next [] gaps = numbered next (joined gaps)
woven next (f ∷ fs) [] = f ∷ woven next fs []
woven next (f ∷ fs) (es ∷ gaps) = numbered next es ++ f ∷ woven (next + length es) fs gaps

pub send_all-sent :
    (s : Session) (fs : List DispatchFrame) (gaps : List (List DispatchEvent)) (outbox : ℕ)
    → s.outbox ≡ some outbox
    → (send_all s fs gaps).1 ≡ map (to_queue outbox) (woven s.seq fs gaps)
unfolding send_all woven
send_all-sent s [] gaps outbox h = dispatch_all-sent s (joined gaps) outbox h
send_all-sent s (f ∷ fs) [] outbox h =
    ap (λ r. r ++ (send_all s fs []).1) (send_text-queue s (dispatched f) outbox h)
    ∙ ap (λ r. to_queue outbox f ∷ r) (send_all-sent s fs [] outbox h)
send_all-sent s (f ∷ fs) (es ∷ gaps) outbox h =
    let others : Session = (dispatch_all s es).0 in
    let same : others.outbox ≡ some outbox = dispatch_all-outbox s es ∙ h in
    let onto = to_queue outbox in
    let rest =
      send_all-sent others fs gaps outbox same
      ∙ ap (λ k. map onto (woven k fs gaps)) (dispatch_all-seq s es) in
    ap (λ r. r ++ (Session.send_text others (dispatched f) ++ (send_all others fs gaps).1))
      (dispatch_all-sent s es outbox h)
    ∙ ap (λ r. map onto (numbered s.seq es) ++ (r ++ (send_all others fs gaps).1))
        (send_text-queue others (dispatched f) outbox same)
    ∙ ap (λ r. map onto (numbered s.seq es) ++ onto f ∷ r) rest
    ∙ sym (map-append onto (numbered s.seq es) (f ∷ woven (s.seq + length es) fs gaps))

pub send_all-run :
    (s : Session) (fs : List DispatchFrame) (gaps : List (List DispatchEvent))
    → (send_all s fs gaps).0 ≡ run s (map event (joined gaps))
unfolding send_all joined run
send_all-run s [] gaps = dispatch_all-run s (joined gaps)
send_all-run s (f ∷ fs) [] = send_all-run s fs []
send_all-run s (f ∷ fs) (es ∷ gaps) =
    send_all-run (dispatch_all s es).0 fs gaps
    ∙ ap (λ t. run t (map event (joined gaps))) (dispatch_all-run s es)
    ∙ sym (run-append s (map event es) (map event (joined gaps)))
    ∙ ap (run s) (sym (map-append event es (joined gaps)))

pub send_all-outbox :
    (s : Session) (fs : List DispatchFrame) (gaps : List (List DispatchEvent))
    → (send_all s fs gaps).0.outbox ≡ s.outbox
unfolding send_all
send_all-outbox s [] gaps = dispatch_all-outbox s (joined gaps)
send_all-outbox s (f ∷ fs) [] = send_all-outbox s fs []
send_all-outbox s (f ∷ fs) (es ∷ gaps) =
    send_all-outbox (dispatch_all s es).0 fs gaps ∙ dispatch_all-outbox s es

pub send_all-seq :
    (s : Session) (fs : List DispatchFrame) (gaps : List (List DispatchEvent))
    → (send_all s fs gaps).0.seq ≡ s.seq + length (joined gaps)
unfolding send_all joined
send_all-seq s [] gaps = dispatch_all-seq s (joined gaps)
send_all-seq s (f ∷ fs) [] = send_all-seq s fs []
send_all-seq s (f ∷ fs) (es ∷ gaps) = omega (
  arith,
  send_all-seq (dispatch_all s es).0 fs gaps,
  dispatch_all-seq s es,
  length-append es (joined gaps),
)

-- The frames up to a number, and those after it, among what is numbered from there on.
module _ (n : ℕ) where
  abbrev pub is_old : DispatchFrame → Bool
  is_old f = leb f.s n

  abbrev pub is_new : DispatchFrame → Bool
  is_new f = not (leb f.s n)

  none_old :
      (next : ℕ) (es : List DispatchEvent) → n ≤ next → keep_if is_old (numbered next es) ≡ []
  unfolding numbered
  none_old next [] h = refl
  none_old next (e ∷ es) h = ground (arith, none_old (next + 1) es (omega arith))

  all_new :
      (next : ℕ) (es : List DispatchEvent)
      → n ≤ next
      → keep_if is_new (numbered next es) ≡ numbered next es
  unfolding numbered
  all_new next [] h = refl
  all_new next (e ∷ es) h = ground (arith, all_new (next + 1) es (omega arith))

  pub woven_old :
      (next : ℕ) (fs : List DispatchFrame) (gaps : List (List DispatchEvent))
      → n ≤ next
      → all is_old fs ≡ true
      → keep_if is_old (woven next fs gaps) ≡ fs
  unfolding woven
  woven_old next [] gaps h o = none_old next (joined gaps) h
  woven_old next (f ∷ fs) [] h o = ground (arith, woven_old next fs [] h)
  woven_old next (f ∷ fs) (es ∷ gaps) h o =
      let rest = woven_old (next + length es) fs gaps (omega arith) in
      keep_if-append is_old (numbered next es) (f ∷ woven (next + length es) fs gaps)
      ∙ rw (none_old next es h) (ground (arith, rest))

  pub woven_new :
      (next : ℕ) (fs : List DispatchFrame) (gaps : List (List DispatchEvent))
      → n ≤ next
      → all is_old fs ≡ true
      → keep_if is_new (woven next fs gaps) ≡ numbered next (joined gaps)
  unfolding woven joined
  woven_new next [] gaps h o = all_new next (joined gaps) h
  woven_new next (f ∷ fs) [] h o = ground (arith, woven_new next fs [] h)
  woven_new next (f ∷ fs) (es ∷ gaps) h o =
      let rest = woven_new (next + length es) fs gaps (omega arith) in
      let dropped : keep_if is_new (f ∷ woven (next + length es) fs gaps)
          ≡ numbered (next + length es) (joined gaps) =
        ground (arith, rest) in
      keep_if-append is_new (numbered next es) (f ∷ woven (next + length es) fs gaps)
      ∙ rw (all_new next es h, dropped) (sym (numbered-join next es (joined gaps)))

  pub numbered-old :
      (k : ℕ) (es : List DispatchEvent) → k + length es ≤ n → all is_old (numbered k es) ≡ true
  unfolding numbered
  numbered-old k [] h = refl
  numbered-old k (e ∷ es) h = ground (arith, numbered-old (k + 1) es (omega arith))
