-- ===== src/Graph.antt =====
-- modules/graph: the storage service, as far as it keeps points in memory.
pub mod LinkedList
pub mod Store
pub mod CacheKey
pub mod Query
pub mod History
pub mod Index
pub mod Api
pub mod Handlers
pub mod Flush
use open_falcon.Prelude.{ℕ, List}
use open_falcon.Prelude.Int.{ℤ}
use open_falcon.Prelude.Text.{Str}
use open_falcon.Prelude.Maps.{Map}

-- `GraphItem` of common/model/graph.go.
pub record GraphItem (F : Type 0) : Type 0 where
  pub endpoint : Str
  pub metric : Str
  pub tags : Map Str Str
  pub value : F
  pub timestamp : ℤ
  pub ds_type : Str
  pub step : ℤ
  pub heartbeat : ℤ
  pub min : Str
  pub max : Str

-- `SafeLinkedList` of modules/graph/store/linkedlist.go, front first.
pub record SafeLinkedList (F : Type 0) : Type 0 where
  pub flag : ℕ
  pub items : List (GraphItem F)

-- `RRDData` of common/model/graph.go.
pub record RrdData (F : Type 0) : Type 0 where
  pub timestamp : ℤ
  pub value : F
