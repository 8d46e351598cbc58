-- ===== src/Webhooks/Apps.antt =====
-- `AppWebhook`: the versions, the references, the project, the exposure and the registry policy of
-- an app, one module each; the handlers; and when they admit.
pub mod Versions
pub mod Sources
pub mod Origins
pub mod References
pub mod Exposure
pub mod Services
pub mod Handlers
pub mod Admission
