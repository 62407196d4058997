-- ===== src/Backend/Engine/Lifetime.antt =====
-- No engine is lost, and no session is made on an engine that is disposed of.
use mathlib.Core.Option.{some-injective}
use mathlib.Core.Path.{subst}
use storepulse.Prelude.{
  ℕ, suc, ◌+◌, ◌<◌, ◌≡◌, ◌≢◌, refl, Option, none, some, List, [], ◌∷◌, All, arith, length,
  Option-cases, inl, inr, sym, ap, ◌∙◌,
}
use storepulse.Backend.Engine.{
  Globals, no_globals, get_engine, get_session_factory, reset_globals, finish_dispose, end_dispose,
  Call, engine, session, began_dispose, ended_dispose, call, call_all,
}

abbrev pub live : Option ℕ → ℕ
live none = 0
live (some e) = 1

-- `e` is an engine that was created and is not the one in use.
abbrev IsOld : Globals → ℕ → Type 0
IsOld g e = (e < g.created) × (g.engine ≢ some e)

record Sound (g : Globals) : Type 0 where
  current : (e : ℕ) → g.engine ≡ some e → e < g.created
  bound : (e : ℕ) → g.session_factory ≡ some e → g.engine ≡ some e
  counted : live g.engine + length g.disposing + length g.disposed ≡ g.created
  old_disposing : All (IsOld g) g.disposing
  old_disposed : All (IsOld g) g.disposed

All-map : {P Q : ℕ → Type 0} (l : List ℕ) → ((e : ℕ) → P e → Q e) → All P l → All Q l
All-map [] f h = tt
All-map (x ∷ l) f h = (f x h.0, All-map l f h.1)

made-IsOld :
    (n : ℕ) (g : Globals) (l : List ℕ)
    → g.created ≡ n
    → All (IsOld g) l
    → All (IsOld (record g { engine = some n; created = suc n })) l
made-IsOld n g l same =
    All-map l
      (λ d old. (omega (arith, old.0, same), λ k. omega (arith, some-injective _ _ k, old.0, same)))

get_engine-Sound : (g : Globals) → Sound g → Sound (get_engine g).1
unfolding get_engine
get_engine-Sound g h = elim (Option-cases g.engine) [
  | inr (e, k) ↦ subst Sound (ground (arith, k)) h
  | inl k ↦ rw k (record {
    current = λ e same. omega (arith, some-injective _ _ same);
    bound = λ e same. absurd (ground (arith, k, h.bound e same));
    counted = ground (arith, k, h.counted);
    old_disposing = made-IsOld g.created g g.disposing refl h.old_disposing;
    old_disposed = made-IsOld g.created g g.disposed refl h.old_disposed;
  })
]

-- The engine that is given is the one in use.
get_engine-engine : (g : Globals) → (get_engine g).1.engine ≡ some (get_engine g).0
unfolding get_engine
get_engine-engine g = ground arith

abbrev Given : ℕ × Globals → Type 0
Given r = Sound r.1 × (r.1.engine ≡ some r.0)

bound-Sound :
    (e : ℕ) (g : Globals)
    → Sound g
    → g.engine ≡ some e
    → Sound (record g { session_factory = some e })
bound-Sound e g h given = record {
  current = h.current;
  bound = λ d same. given ∙ same;
  counted = h.counted;
  old_disposing = h.old_disposing;
  old_disposed = h.old_disposed;
}

get_session_factory-Sound :
    (g : Globals)
    → Sound g
    → Sound (get_session_factory g).1
      × ((get_session_factory g).1.engine ≡ some (get_session_factory g).0)
unfolding get_session_factory
get_session_factory-Sound g h = elim (Option-cases g.session_factory) [
  | inr (e, k) ↦ subst Given (ground (arith, k)) (h, h.bound e k)
  | inl k ↦ subst Given (ground (arith, k)) (
    bound-Sound (get_engine g).0 (get_engine g).1 (get_engine-Sound g h) (get_engine-engine g),
    get_engine-engine g,
  )
]

dropped-IsOld :
    (g : Globals) (l : List ℕ)
    → All (IsOld g) l
    → All (IsOld (record g { engine = none; session_factory = none })) l
dropped-IsOld g l = All-map l (λ d old. (old.0, λ k. absurd (ground (arith, k))))

reset_globals-Sound : (g : Globals) → Sound g → Sound (reset_globals g)
unfolding reset_globals
reset_globals-Sound g h = elim (Option-cases g.engine) [
  | inl k ↦ rw k (record {
    current = λ e same. absurd (ground (arith, same));
    bound = λ e same. absurd (ground (arith, same));
    counted = ground (arith, k, h.counted);
    old_disposing = dropped-IsOld g g.disposing h.old_disposing;
    old_disposed = dropped-IsOld g g.disposed h.old_disposed;
  })
  | inr (x, k) ↦ rw k (record {
    current = λ e same. absurd (ground (arith, same));
    bound = λ e same. absurd (ground (arith, same));
    counted = ground (arith, k, h.counted);
    old_disposing = (
      (h.current x k, λ e. absurd (ground (arith, e))),
      dropped-IsOld g g.disposing h.old_disposing,
    );
    old_disposed = dropped-IsOld g g.disposed h.old_disposed;
  })
]

finish_dispose-Sound : (g : Globals) → Sound g → Sound (finish_dispose g)
unfolding finish_dispose
finish_dispose-Sound g h = go g.disposing h refl
  where
    go : (l : List ℕ) → Sound g → g.disposing ≡ l → Sound (end_dispose l g)
    go [] h e = h
    go (x ∷ rest) h e =
        let old : All (IsOld g) (x ∷ rest) = subst (All (IsOld g)) e h.old_disposing in
        record {
          current = h.current;
          bound = h.bound;
          counted = omega (arith, h.counted, ap length e);
          old_disposing = old.1;
          old_disposed = (old.0, h.old_disposed);
        }

call-Sound : (c : Call) (g : Globals) → Sound g → Sound (call c g)
unfolding call
call-Sound engine g h = get_engine-Sound g h
call-Sound session g h = (get_session_factory-Sound g h).0
call-Sound began_dispose g h = reset_globals-Sound g h
call-Sound ended_dispose g h = finish_dispose-Sound g h

call_all-Sound : (l : List Call) (g : Globals) → Sound g → Sound (call_all l g)
unfolding call_all
call_all-Sound [] g h = h
call_all-Sound (c ∷ l) g h = call_all-Sound l (call c g) (call-Sound c g h)

no_globals-Sound : Sound no_globals
no_globals-Sound = record {
  current = λ e same. absurd (ground (arith, same));
  bound = λ e same. absurd (ground (arith, same));
  counted = refl;
  old_disposing = tt;
  old_disposed = tt;
}

-- However engines and sessions are asked for and disposals begin and end: the next session is made
-- on an engine whose disposal has not begun; and the engine in use, those whose disposal has begun
-- and those that are disposed of are together as many as were created.
pub session_on_live_engine :
    (l : List Call)
    → let g = call_all l no_globals in
      let (e, g') = get_session_factory g in
      All (λ d. d ≢ e) g'.disposing
      × All (λ d. d ≢ e) g'.disposed
      × (live g.engine + length g.disposing + length g.disposed ≡ g.created)
session_on_live_engine l =
    let g : Globals = call_all l no_globals in
    let h = call_all-Sound l no_globals no_globals-Sound in
    let (h', given) = get_session_factory-Sound g h in
    let apart : (d : ℕ) → IsOld (get_session_factory g).1 d → d ≢ (get_session_factory g).0 =
      λ d old same. old.1 (given ∙ ap some (sym same)) in
    (All-map _ apart h'.old_disposing, All-map _ apart h'.old_disposed, h.counted)
