-- ===== src/Application/DashboardService/Kept.antt =====
-- What a refresh keeps and what it reads anew, DashboardService.cpp.
use lx.Application.DashboardService.{DashboardService}
use lx.Application.ProcessService
use lx.Application.PortService.Inspect
use lx.Application.ServiceService
use lx.Exec.Returns.{Returns}
