-- ===== src/Tests.antt =====
-- The theorems applied at concrete inputs, on a platform that is written out.
mod Demo
mod DemoLaws
mod Cart
mod Runs
mod RoutesWitnesses
mod ReconcileWitnesses
mod ErrorWitnesses
mod ObjectWitnesses
mod AnswerWitnesses
mod ClusterWitnesses
mod MainWitnesses
mod CopyWitnesses
mod SettledWitnesses
mod PanicWitnesses
mod StartWitnesses
mod RestingWitnesses
mod CalmWitnesses
mod HelperWitnesses
