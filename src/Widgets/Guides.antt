-- ===== src/Widgets/Guides.antt =====
-- The help buttons of the headings lead to guides.
use drishtiscope_oss.Common.{Option, none, some, List, refl, All}
use drishtiscope_oss.Docs.{lookup}
use drishtiscope_oss.Help.{shown_doc, info}
use drishtiscope_oss.Help.Laws.{IsGuided, guided}
use drishtiscope_oss.Store.Types.{TabType, story, basic, medium, advanced, complete, ScratchGraph}
use drishtiscope_oss.Store.Graphs.{initial_scratch_graphs}
use drishtiscope_oss.Tabs.Medium.{Tile, tiles}
use drishtiscope_oss.Protocol.{Snapshot}
use drishtiscope_oss.Common.{ℕ}
use drishtiscope_oss.Widgets.Panels.{PanelHead, panels}
use drishtiscope_oss.Widgets.Tables.{
  HelpButton, Column, Table, process_table, file_table, flow_table, syscall_table, history_table,
  columns,
}

abbrev pub HasGuide : Option HelpButton → Type 0
HasGuide none = Unit
HasGuide (some h) = IsGuided h.metric_id

columns-HasGuide : (t : Table) → All (λ (c : Column). HasGuide c.help) (columns t)
unfolding columns shown_doc lookup
columns-HasGuide process_table = (
  guided refl,
  (
    guided refl,
    (guided refl, (guided refl, (guided refl, (guided refl, (guided refl, (tt, tt)))))),
  ),
)
columns-HasGuide file_table = (guided refl, (guided refl, (guided refl, (guided refl, tt))))
columns-HasGuide flow_table = (
  guided refl,
  (guided refl, (guided refl, (guided refl, (guided refl, (guided refl, (guided refl, tt)))))),
)
columns-HasGuide syscall_table = (guided refl, (guided refl, (guided refl, tt)))
columns-HasGuide history_table = (
  guided refl,
  (
    tt,
    (
      guided refl,
      (guided refl, (guided refl, (guided refl, (guided refl, (guided refl, (guided refl, tt)))))),
    ),
  ),
)

panels-HasGuide : All (λ (p : PanelHead). IsGuided p.help_metric_id) panels
unfolding shown_doc lookup
panels-HasGuide = (
  guided refl,
  (
    guided refl,
    (
      guided refl,
      (
        guided refl,
        (
          guided refl,
          (
            guided refl,
            (
              guided refl,
              (
                guided refl,
                (guided refl, (guided refl, (guided refl, (guided refl, (guided refl, tt))))),
              ),
            ),
          ),
        ),
      ),
    ),
  ),
)

tiles-HasGuide :
    (locale : ℕ → List ℕ) (s : Option Snapshot)
    → All (λ (t : Tile). IsGuided t.metric_id) (tiles locale s)
unfolding tiles shown_doc lookup
tiles-HasGuide locale s = (
  guided refl,
  (
    guided refl,
    (guided refl, (guided refl, (guided refl, (guided refl, (guided refl, (guided refl, tt)))))),
  ),
)

info-HasGuide : (tab : TabType) → IsGuided (info tab).help_metric_id
unfolding shown_doc lookup
info-HasGuide story = guided refl
info-HasGuide basic = guided refl
info-HasGuide medium = guided refl
info-HasGuide advanced = guided refl
info-HasGuide complete = guided refl

graphs-HasGuide : All (λ (g : ScratchGraph). IsGuided g.help_metric_id) initial_scratch_graphs
unfolding shown_doc lookup
graphs-HasGuide = (guided refl, (guided refl, (guided refl, tt)))

-- Every help button of a table's headings, of a panel of the tabs, of a tile, of the card of a tab and
-- of a scratch graph that is there from the start opens the guide that has its id.
pub buttons-HasGuide :
    (table : Table) (tab : TabType) (locale : ℕ → List ℕ) (s : Option Snapshot)
    → All (λ (c : Column). HasGuide c.help) (columns table)
      × All (λ (p : PanelHead). IsGuided p.help_metric_id) panels
      × All (λ (t : Tile). IsGuided t.metric_id) (tiles locale s)
      × All (λ (g : ScratchGraph). IsGuided g.help_metric_id) initial_scratch_graphs
      × IsGuided (info tab).help_metric_id
buttons-HasGuide table tab locale s = (
  columns-HasGuide table,
  panels-HasGuide,
  tiles-HasGuide locale s,
  graphs-HasGuide,
  info-HasGuide tab,
)
