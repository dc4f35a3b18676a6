-- ===== src/Winrm.antt =====
-- plugin/windows-winrm: the plugin that polls Windows devices, a program of its own that reads tasks
-- and writes their results. models/models.go is here. Texts are lists of code points; the numbers
-- of a metric are float64, which with their operations are an argument (`Floats`).
pub mod Wmi
pub mod Client
pub mod Names
pub mod Collector
pub mod Totals
pub mod Partial
pub mod Program
pub mod Tests
use nmslite.Common.{ℕ, ℤ, Bool, List}

abbrev pub Text : Type 0
Text = List ℕ

pub record Floats : Type 1 where
  pub Float : Type 0
  -- float64 of a uint64
  pub of_uint : ℕ → Float
  pub plus : Float → Float → Float
  pub minus : Float → Float → Float
  pub times : Float → Float → Float
  pub over : Float → Float → Float
  -- > 0
  pub is_positive : Float → Bool

pub record Credentials : Type 0 where
  pub username : Text
  pub password : Text
  pub domain : Text

pub record PluginInput : Type 0 where
  pub request_id : Text
  pub target : Text
  pub port : ℤ
  pub credentials : Credentials

pub record Metric (Float : Type 0) : Type 0 where
  pub name : Text
  pub value : Float
  pub kind : Text

pub record PluginOutput (Float : Type 0) : Type 0 where
  pub request_id : Text
  pub status : Text
  pub timestamp : Text
  pub metrics : List (Metric Float)
  pub error : Text
