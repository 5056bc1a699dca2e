-- ===== src/Tests.antt =====
-- Runs of the modelled functions, and the theorems at concrete inputs.
mod HeapRuns
mod PagingRuns
mod ChunkRuns
mod LoadRuns
mod FreeRuns
mod StdlibRuns
mod SystemRuns
mod ProcessRuns
mod KeyboardRuns
mod TtyRuns
mod InterruptRuns
mod FileRuns
mod TaskRuns
mod FatRuns
mod OpenRuns
mod DeviceRuns
