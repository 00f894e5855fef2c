-- ===== src/Tests.antt =====
-- Concrete runs, and each theorem at a concrete input.
mod Toy
mod ProtoRuns
mod ChannelRuns
mod ThreadsRuns
mod EncodingRuns
mod TransferRuns
mod ReceiverRuns
mod ConfigRuns
mod DiodeRuns
mod SendRuns
mod PipelineRuns
mod LimiterRuns
mod SocketRuns
mod SessionRuns
mod CliRuns
