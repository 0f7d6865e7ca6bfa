-- ===== src/Tests.antt =====
-- Runs of the model on concrete inputs, with the libraries replaced by simple functions that behave
-- as the libraries document.
mod Toy
mod Wire
mod World
mod CryptoRuns
mod ServerRuns
mod SessionRuns
mod ClientRuns
mod FileRuns
mod LoopRuns
mod PipelineRuns
mod CliRuns
mod FacadeRuns
mod GuiRuns
mod ConnectRuns
mod ReachRuns
