-- ===== src/Oas/Options.antt =====
-- internal/api/oas/oas_cfg_gen.go: what the configurations of the generated server and client share.
-- OpenTelemetry and ogen's `otelogen` are the record `Otel`.
pub mod Server
pub mod Client
pub mod Laws
use flowhand.Base.{Option, none, some, List, []}
use flowhand.Failure.{Result}

-- What the code calls of OpenTelemetry and of `otelogen`.
pub record Otel : Type 1 where
  pub TracerProvider : Type 0
  pub MeterProvider : Type 0
  pub Tracer : Type 0
  pub Meter : Type 0
  pub Attribute : Type 0
  pub Counter : Type 0
  pub Histogram : Type 0
  -- `otel.GetTracerProvider` and `otel.GetMeterProvider`
  pub get_tracer_provider : TracerProvider
  pub get_meter_provider : MeterProvider
  -- `Tracer` and `Meter` of a provider, with ogen's name and version
  pub tracer : TracerProvider → Tracer
  pub meter : MeterProvider → Meter
  pub server_request_count_counter : Option Meter → Result Counter
  pub server_errors_count_counter : Option Meter → Result Counter
  pub server_duration_histogram : Option Meter → Result Histogram
  pub client_request_count_counter : Option Meter → Result Counter
  pub client_errors_count_counter : Option Meter → Result Counter
  pub client_duration_histogram : Option Meter → Result Histogram

-- `v`, unless it is nil.
abbrev pub non_nil {ℓ} : {A : Type ℓ} → Option A → A → A
non_nil none old = old
non_nil (some v) old = v

module _ (O : Otel) where
  -- `otelConfig`
  pub record OtelConfig : Type 0 where
    pub tracer_provider : Option O.TracerProvider
    pub tracer : Option O.Tracer
    pub meter_provider : Option O.MeterProvider
    pub meter : Option O.Meter
    pub attributes : List O.Attribute

  abbrev pub zero_otel : OtelConfig
  zero_otel = record {
    tracer_provider = none;
    tracer = none;
    meter_provider = none;
    meter = none;
    attributes = [];
  }

  -- `initOTEL`
  unfoldable pub init_otel : OtelConfig → OtelConfig
  init_otel cfg =
      let tp = non_nil cfg.tracer_provider O.get_tracer_provider in
      let mp = non_nil cfg.meter_provider O.get_meter_provider in
      record cfg {
        tracer_provider = some tp;
        meter_provider = some mp;
        tracer = some (O.tracer tp);
        meter = some (O.meter mp);
      }

  -- `WithTracerProvider`, `WithMeterProvider` and `WithAttributes`
  abbrev pub with_tracer_provider : Option O.TracerProvider → OtelConfig → OtelConfig
  with_tracer_provider none cfg = cfg
  with_tracer_provider (some p) cfg = record cfg { tracer_provider = some p }

  abbrev pub with_meter_provider : Option O.MeterProvider → OtelConfig → OtelConfig
  with_meter_provider none cfg = cfg
  with_meter_provider (some p) cfg = record cfg { meter_provider = some p }

  abbrev pub with_attributes : List O.Attribute → OtelConfig → OtelConfig
  with_attributes attributes cfg = record cfg { attributes = attributes }

  -- An option, of a configuration `C` that embeds an `otelConfig`: `optionFunc` and `otelOptionFunc`.
  pub data ConfigOption (C : Type 0) : Type 0 where
    option_func : (C → C) → ConfigOption C
    otel_option_func : (OtelConfig → OtelConfig) → ConfigOption C
