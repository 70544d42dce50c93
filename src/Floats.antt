-- ===== src/Floats.antt =====
-- The floating point numbers of the program: Python's `float` with its operators, the builtin
-- `sum` over floats, and the functions of the module `math`. None of these is code of the
-- repository, so they are a parameter of every definition that computes with them.
use odograph.Prelude.{ℕ, Bool, List}

pub record Floats : Type 1 where
  pub Float : Type 0
  -- `float(n)` for a natural number, also where Python converts an int in mixed arithmetic.
  pub of_nat : ℕ → Float
  pub add : Float → Float → Float
  pub sub : Float → Float → Float
  pub mul : Float → Float → Float
  pub div : Float → Float → Float
  -- `a <= b` and `a < b`. They are two tests, since neither decides the other at a NaN.
  pub le : Float → Float → Bool
  pub lt : Float → Float → Bool
  pub sum : List Float → Float
  pub sin : Float → Float
  pub cos : Float → Float
  pub asin : Float → Float
  pub sqrt : Float → Float
  pub radians : Float → Float
  -- `(b - a).total_seconds()` for two instants in microseconds, `a` the first argument.
  pub seconds : ℕ → ℕ → Float
