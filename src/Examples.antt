-- ===== src/Examples.antt =====
-- Runs at concrete inputs: tests of the definitions, and each theorem at an input that meets its
-- hypotheses.
mod Samples
mod ClientRuns
mod AppRuns
mod StoreRuns
mod ChatRuns
mod TableRuns
mod ChartRuns
mod PageRuns
mod FormatRuns
mod ViewRuns
mod SessionRuns
mod KeyRuns
