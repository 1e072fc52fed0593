-- ===== src/Gateway/Log.antt =====
-- gateway/log.go: the names under which the package logs.
use aliyun_ahas.Logger.{LogCall, debug, warn, info, error, debugf, infof, warnf, errorf}

pub data GatewayLog : Type 0 where
  log_debug : GatewayLog
  log_warn : GatewayLog
  log_info : GatewayLog
  log_error : GatewayLog
  log_debugf : GatewayLog
  log_infof : GatewayLog
  log_warnf : GatewayLog
  log_errorf : GatewayLog

-- The call of the logger that each of them makes, with the same arguments.
unfoldable pub logger_call : GatewayLog → LogCall
logger_call log_debug = debug
logger_call log_warn = warn
logger_call log_info = info
logger_call log_error = error
logger_call log_debugf = debugf
logger_call log_infof = infof
logger_call log_warnf = warnf
logger_call log_errorf = errorf
