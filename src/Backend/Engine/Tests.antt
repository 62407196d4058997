-- ===== src/Backend/Engine/Tests.antt =====
-- A session before, during and after a disposal.
use storepulse.Prelude.{◌≡◌, ◌≢◌, refl, [], ◌∷◌, All, ◌+◌, length}
use storepulse.Backend.Engine.{
  no_globals, get_session_factory, session, began_dispose, ended_dispose, call_all,
}
use storepulse.Backend.Engine.Lifetime.{live, session_on_live_engine}

-- The session that comes while the first engine is disposed of has an engine of its own.
second_engine : (get_session_factory (call_all (session ∷ began_dispose ∷ []) no_globals)).0 ≡ 1
unfolding get_session_factory call_all
second_engine = refl

session_on_live_engine_example :
    let g = call_all (session ∷ began_dispose ∷ session ∷ ended_dispose ∷ []) no_globals in
    let (e, g') = get_session_factory g in
    All (λ d. d ≢ e) g'.disposing
    × All (λ d. d ≢ e) g'.disposed
    × (live g.engine + length g.disposing + length g.disposed ≡ g.created)
session_on_live_engine_example =
    session_on_live_engine (session ∷ began_dispose ∷ session ∷ ended_dispose ∷ [])
