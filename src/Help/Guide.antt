-- ===== src/Help/Guide.antt =====
-- What MetricHelpModal of frontend/src/components/MetricHelpModal.tsx draws of a guide, and what a click
-- does: anywhere beside the guide, on its cross or on "Got It" it closes.
use Prim.Native.String.{◌++◌}
use drishtiscope_oss.Common.{String, Option, none, some, List, [], ◌∷◌, if◌then◌else◌}
use drishtiscope_oss.Docs.Types.{
  MetricDoc, MetricCategory, ThemeColor, cyan, blue, emerald, amber, rose, purple,
}
use drishtiscope_oss.Help.{CopyButton, shown_doc, handle_copy}
use drishtiscope_oss.Store.{open_metric_help, close_metric_help}
use drishtiscope_oss.Store.Types.{ScopeStore}

-- `badgeColorClasses`
abbrev pub badge_classes : ThemeColor → String
badge_classes cyan = "bg-cyan/15 text-cyan border-cyan/40"
badge_classes blue = "bg-[#4285F4]/15 text-[#4285F4] border-blue-500/40"
badge_classes emerald = "bg-[#34A853]/15 text-[#34A853] border-emerald-500/40"
badge_classes amber = "bg-amber/15 text-amber border-amber/40"
badge_classes rose = "bg-rose-500/15 text-rose border-rose-500/40"
badge_classes purple = "bg-purple-500/15 text-purple-400 border-purple-500/40"

-- A part of the body: its heading and its text.
pub record Part : Type 0 where
  pub heading : String
  pub text : String

pub record Guide : Type 0 where
  pub title : String
  pub category : MetricCategory
  pub badge : String
  pub definition : String
  pub unit : String
  pub parts : List Part
  pub command : String
  pub copy_label : String
  pub source : String

abbrev pub guide_of : CopyButton → MetricDoc → Guide
guide_of b doc = record {
  title = doc.title;
  category = doc.category;
  badge = badge_classes doc.theme_color;
  definition = doc.short_definition;
  unit = "Unit: " ++ doc.how_to_read.unit;
  parts =
      record { heading = "What Is This? (Simple Terms)"; text = doc.junior_admin_explanation }
      ∷ record { heading = "NORMAL / HEALTHY"; text = doc.how_to_read.healthy }
      ∷ record { heading = "WARNING / HIGH"; text = doc.how_to_read.warning }
      ∷ record { heading = "CRITICAL / DANGER"; text = doc.how_to_read.critical }
      ∷ record {
        heading = "Why Autonomous AI Agents (e.g. agy, grok) Care";
        text = doc.why_ai_agents_care;
      }
      ∷ [];
  command = doc.linux_admin_command;
  copy_label = if b.copied then "Copied!" else "Copy Command";
  source = "Kernel Source: " ++ doc.kernel_data_source;
}

abbrev pub guide_or_none : CopyButton → Option MetricDoc → Option Guide
guide_or_none b none = none
guide_or_none b (some doc) = some (guide_of b doc)

-- The modal, over the store.
unfoldable pub modal : CopyButton → ScopeStore → Option Guide
unfolding shown_doc
modal b st = guide_or_none b (shown_doc st.active_metric_help_id)

-- Where a click can land while the modal is drawn: beside the guide, in it, on one of the two buttons
-- that close it, or on the copy button.
pub data Spot : Type 0 where
  backdrop inside cross got_it copy : Spot

-- The click, with the text that is put on the clipboard, if any. A click in the guide does not reach the
-- backdrop.
unfoldable pub on_click :
    Spot → Guide → CopyButton → ScopeStore → (CopyButton × ScopeStore) × Option String
on_click backdrop g b st = ((b, close_metric_help st), none)
on_click inside g b st = ((b, st), none)
on_click cross g b st = ((b, close_metric_help st), none)
on_click got_it g b st = ((b, close_metric_help st), none)
on_click copy g b st = ((handle_copy b, st), some g.command)

-- MetricHelpButton: a click opens the guide, and does not reach what the button stands on.
abbrev pub on_help_button : String → ScopeStore → ScopeStore
on_help_button metric_id st = open_metric_help metric_id st

abbrev pub button_color : ThemeColor → String
button_color cyan =
    "text-cyan/80 hover:text-cyan hover:bg-cyan/15 border-cyan/30 hover:border-cyan/60"
button_color blue =
    "text-[#4285F4]/90 hover:text-[#4285F4] hover:bg-blue-500/15 border-blue-500/30 hover:border-blue-500/60"
button_color emerald =
    "text-[#34A853]/90 hover:text-[#34A853] hover:bg-emerald-500/15 border-emerald-500/30 hover:border-emerald-500/60"
button_color amber =
    "text-amber/90 hover:text-amber hover:bg-amber/15 border-amber/30 hover:border-amber/60"
button_color rose =
    "text-[#EA4335]/90 hover:text-[#EA4335] hover:bg-rose-500/15 border-rose-500/30 hover:border-rose-500/60"
button_color purple =
    "text-purple-400/90 hover:text-purple-400 hover:bg-purple-500/15 border-purple-500/30 hover:border-purple-500/60"
