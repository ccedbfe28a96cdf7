-- ===== src/Tests/Bootstrap.antt =====
-- The installation at a concrete input.
use faasten.Base.{some, none, [], ◌∷◌}
use faasten.Syscall.Server.{Server}
use faasten.Bootstrap.{Config, prepare_fs}
use faasten.Bootstrap.Acting.{LeftWith, prepare_fs-LeftWith}
use faasten.Tests.Setup.{number_labels, doc_serde, admin}
use faasten.Tests.Syscall.{one_digest, server}

abbrev config : Config
config = record { kernel = "k"; python = "p"; fsutil = "f"; other_runtimes = [] }

-- No object is stored yet.
abbrev fresh : Server
fresh = record server {
  world = record admin { store = λ k. none; draws = 1 ∷ 2 ∷ 3 ∷ 4 ∷ 5 ∷ 6 ∷ [] };
}

prepare_fs-LeftWith_example : LeftWith 9 (prepare_fs (λ p. some []) (λ p. some p) 9 config fresh)
prepare_fs-LeftWith_example = prepare_fs-LeftWith (λ p. some []) (λ p. some p) 9 config fresh
