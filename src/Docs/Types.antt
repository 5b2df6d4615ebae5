-- ===== src/Docs/Types.antt =====
-- The types of frontend/src/data/metricDocs.ts.
use drishtiscope_oss.Common.{String}

pub data MetricCategory : Type 0 where
  core_agent_signals compute_cpu memory_ram storage_disk : MetricCategory
  network_sockets processes_threads security_audit kernel_ebpf : MetricCategory

pub data ThemeColor : Type 0 where
  cyan blue emerald amber rose purple : ThemeColor

pub record HowToRead : Type 0 where
  pub unit : String
  pub healthy : String
  pub warning : String
  pub critical : String

pub record MetricDoc : Type 0 where
  pub id : String
  pub title : String
  pub category : MetricCategory
  pub theme_color : ThemeColor
  pub short_definition : String
  pub junior_admin_explanation : String
  pub how_to_read : HowToRead
  pub why_ai_agents_care : String
  pub linux_admin_command : String
  pub kernel_data_source : String
