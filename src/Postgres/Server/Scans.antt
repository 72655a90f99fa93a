-- ===== src/Postgres/Server/Scans.antt =====
-- The order in which a query meets the rows that it returns.
use mathlib.Core.List.{Perm, Permᴰ}
use mathlib.Core.List.Perm
use ai_agent_boilerplate.Prelude.{◌≡◌, refl, List, [], ◌∷◌, map}
use ai_agent_boilerplate.Postgres.Tables.{Tables}
use ai_agent_boilerplate.Postgres.Server.{Server}

-- A scan meets each row once.
abbrev pub IsScan : Server → Type 1
IsScan server = (R : Type 0) (t : Tables) (rows : List R) → Permᴰ (server.scan t rows) rows

-- Rows of values in any order are the rows of those values in some order.
pub reordered :
    {A R : Type 0} (row : A → R) {rows other : List R} (values : List A)
    → Permᴰ rows other
    → other ≡ map row values
    → (met : List A) × (rows ≡ map row met) × Perm met values
reordered row [] Permᴰ.nil e = ([], refl, Perm.refl [])
reordered row (j ∷ js) Permᴰ.nil e = cc
reordered row [] (Permᴰ.cons same p) e = cc
reordered row (j ∷ js) (Permᴰ.cons same p) e =
    let rest = reordered row js p cc in (j ∷ rest.0, cc (same, e, rest.1), Perm.cons j rest.2)
reordered row [] (Permᴰ.swap first second) e = cc
reordered row (j ∷ []) (Permᴰ.swap first second) e = cc
reordered row (j ∷ k ∷ js) (Permᴰ.swap first second) e =
    (k ∷ j ∷ js, cc (first, second, e), Perm.swap j k js)
reordered row values (Permᴰ.trans p q) e =
    let later = reordered row values q e in
    let sooner = reordered row later.0 p later.1 in
    (sooner.0, sooner.1, Perm.trans sooner.2 later.2)
