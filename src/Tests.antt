-- ===== src/Tests.antt =====
-- Runs of the definitions on concrete inputs, and each theorem at an input that meets its hypotheses.
mod Sorting
mod Hashes
mod LruRuns
mod DiskRuns
mod CacheRuns
mod HistoryRuns
mod ThreadRuns
mod MixedRuns
mod LinkRuns
mod FragmentRuns
mod RtcRuns
mod MacroRuns
mod CallableRuns
mod TextRuns
mod EmbedRuns
mod GpuRuns
