-- ===== src/Application.antt =====
-- src/application: the services.
pub mod ServiceService
pub mod ProcessService
pub mod PortService
pub mod ResourceResolver
pub mod LogService
pub mod MetricsService
pub mod DashboardService
pub mod DashboardWorker
pub mod FindService
pub mod InspectService
pub mod DoctorService
pub mod Example
