-- ===== src/Service/Requests.antt =====
-- The calls that routes and tools make of a `MemoryService`, one service per principal, in any order.
-- Between two calls the caches of the instances are dropped: a service lives for one request.
use kortex_memory.Prelude.{ℕ, Bool, none, List, [], ◌∷◌}
use kortex_memory.Access.{Principal}
use kortex_memory.Memories.Writes.{Changes}
use kortex_memory.Service.Governance.{CreateMemoryInput}
use kortex_memory.Service.State.{State, Environment}
use kortex_memory.Service.Write
use kortex_memory.Service.Methods
use kortex_memory.Service.Methods.{BulkAction}

pub data Request : Type 0 where
  write : CreateMemoryInput → Bool → Bool → Request
  review : ℕ → Bool → Request
  update : ℕ → Changes → Request
  delete : ℕ → Request
  pin : ℕ → Bool → Request
  bulk_apply : BulkAction → List ℕ → Request

pub record Call : Type 0 where
  pub principal : Principal
  pub request : Request

-- the instance that serves the next request has empty caches
abbrev pub fresh : State → State
fresh s = record s { org_plan = none; mem_count = none; project_settings = [] }

module _ (env : Environment) where
  unfoldable pub serve : Principal → Request → State → State
  unfolding Write.write Methods.review Methods.update Methods.delete_memory Methods.pin_memory
      Methods.bulk_apply
  serve p (write x embed_inline force) s = (Write.write env p x embed_inline force s).1
  serve p (review i approve) s = (Methods.review env p i approve s).1
  serve p (update i c) s = (Methods.update env p i c s).1
  serve p (delete i) s = (Methods.delete_memory env p i s).1
  serve p (pin i pinned) s = (Methods.pin_memory env p i pinned s).1
  serve p (bulk_apply action ids) s = (Methods.bulk_apply env p action ids s).1

  unfoldable pub serve_all : List Call → State → State
  unfolding serve
  serve_all [] s = s
  serve_all (c ∷ cs) s = serve_all cs (serve c.principal c.request (fresh s))
