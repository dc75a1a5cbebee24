-- ===== src/Auth/Tests.antt =====
-- Runs of the model of internal/auth/scope.go.
use file_dbv.Prelude.{◌≡◌, not, codes, ◌∷◌, ◌++◌, arith}
use file_dbv.Auth.{method_requires_write, listed, read_methods}
use file_dbv.Auth.Scopes.{method_requires_write_lem}

method_requires_write_lem_example :
    method_requires_write (codes "/scriva.v1.Scriva" ++ 47 ∷ codes "Find")
    ≡ not (listed (codes "Find") read_methods)
method_requires_write_lem_example =
    method_requires_write_lem (codes "/scriva.v1.Scriva") (codes "Find")
      ((λ e. omega arith), ((λ e. omega arith), ((λ e. omega arith), ((λ e. omega arith), tt))))
