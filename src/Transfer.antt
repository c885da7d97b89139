-- ===== src/Transfer.antt =====
-- modules/transfer: the service that takes in metrics and hands them to the others.
pub mod Receiver
pub mod Sender
use open_falcon.Prelude.Int.{ℤ}
use open_falcon.Prelude.Text.{Str}
use open_falcon.Prelude.Maps.{Map}

-- What the field `Value`, of no fixed type, can hold: a string, a float64, an int64, or anything else.
pub data Value (F : Type 0) : Type 0 where
  text : Str → Value F
  number : F → Value F
  whole : ℤ → Value F
  other : Value F

-- `MetricValue` of common/model/metric.go.
pub record MetricValue (F : Type 0) : Type 0 where
  pub endpoint : Str
  pub metric : Str
  pub value : Value F
  pub step : ℤ
  pub type : Str
  pub tags : Str
  pub timestamp : ℤ

-- `MetaData` of common/model/metric.go.
pub record MetaData (F : Type 0) : Type 0 where
  pub metric : Str
  pub endpoint : Str
  pub timestamp : ℤ
  pub step : ℤ
  pub value : F
  pub counter_type : Str
  pub tags : Map Str Str

-- `P8sItem` of common/model/prometheus.go.
pub record P8sItem (F : Type 0) : Type 0 where
  pub endpoint : Str
  pub metric : Str
  pub tags : Map Str Str
  pub value : F
  pub timestamp : ℤ
  pub metric_type : Str
  pub step : ℤ

-- `TsdbItem` of common/model/tsdb.go.
pub record TsdbItem (F : Type 0) : Type 0 where
  pub metric : Str
  pub tags : Map Str Str
  pub value : F
  pub timestamp : ℤ

-- `InfluxdbItem` of common/model/influxdb.go; `Fileds` holds the one field `value`.
pub record InfluxdbItem (F : Type 0) : Type 0 where
  pub measurement : Str
  pub tags : Map Str Str
  pub fileds : Map Str F
  pub timestamp : ℤ
