-- ===== src/Backend/Engine.antt =====
-- backend/app/db.py: the database engine and the session factory, which are made when they are
-- first asked for, and `dispose_engine`, which the lifespan of backend/app/main.py awaits.
-- An engine is a number in the order of creation. `dispose_engine` awaits after it has reset the
-- globals, so it is two steps: other tasks may ask for an engine in between. The settings' URL is
-- one that `create_async_engine` takes.
pub mod Lifetime
mod Tests
use storepulse.Prelude.{ℕ, suc, Option, none, some, List, [], ◌∷◌}

-- The two globals, with what became of all engines; a factory is known by its engine.
pub record Globals : Type 0 where
  pub engine : Option ℕ
  pub session_factory : Option ℕ
  pub created : ℕ
  pub disposing : List ℕ
  pub disposed : List ℕ

abbrev pub no_globals : Globals
no_globals = record {
  engine = none;
  session_factory = none;
  created = 0;
  disposing = [];
  disposed = [];
}

unfoldable pub get_engine : Globals → ℕ × Globals
get_engine g = elim g.engine [
  | some e ↦ (e, g)
  | none ↦ (g.created, record g { engine = some g.created; created = suc g.created })
]

-- The engine of the sessions that it makes.
unfoldable pub get_session_factory : Globals → ℕ × Globals
unfolding get_engine
get_session_factory g = elim g.session_factory [
  | some e ↦ (e, g)
  | none ↦ let (e, g') = get_engine g in (e, record g' { session_factory = some e })
]

-- `dispose_engine` until it awaits `engine.dispose()`.
unfoldable pub reset_globals : Globals → Globals
reset_globals g = record g {
  engine = none;
  session_factory = none;
  disposing = elim g.engine [ none ↦ g.disposing | some e ↦ e ∷ g.disposing ];
}

abbrev pub end_dispose : List ℕ → Globals → Globals
end_dispose [] g = g
end_dispose (e ∷ rest) g = record g { disposing = rest; disposed = e ∷ g.disposed }

-- The await of the call that began last comes back.
unfoldable pub finish_dispose : Globals → Globals
finish_dispose g = end_dispose g.disposing g

pub data Call : Type 0 where
  engine session began_dispose ended_dispose : Call

unfoldable pub call : Call → Globals → Globals
unfolding get_engine get_session_factory reset_globals finish_dispose
call engine g = (get_engine g).1
call session g = (get_session_factory g).1
call began_dispose g = reset_globals g
call ended_dispose g = finish_dispose g

unfoldable pub call_all : List Call → Globals → Globals
unfolding call
call_all [] g = g
call_all (c ∷ l) g = call_all l (call c g)
