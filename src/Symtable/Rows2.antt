-- ===== src/Symtable/Rows2.antt =====
-- src/symtable.rs: the rows of lines 158 to 300.
use docsis_config_generator.Common.{List, [], ◌∷◌}
use docsis_config_generator.Symbol.{Symbol, Enc, Render}
use docsis_config_generator.Symtable.Row.{row}

abbrev pub rows2 : List Symbol
rows2 =
    row 334 "MPLSClassificationEncoding" 17 28 Enc.nothing Render.aggregate 0 0
    ∷ row 335 "MPLSTCbits" 1 334 Enc.hexstr Render.hexstr 1 1
    ∷ row 336 "MPLSLabel" 2 334 Enc.hexstr Render.hexstr 3 3
    ∷ row 200 "VendorSpecific" 43 28 Enc.nothing Render.aggregate 0 0
    ∷ row 352 "CMLoadBalancingPolicyID" 1 200 Enc.uint Render.uint 0 0
    ∷ row 353 "CMLoadBalancingPriority" 2 200 Enc.uint Render.uint 0 0
    ∷ row 354 "CMLoadBalancingGroupID" 3 200 Enc.uint Render.uint 0 0
    ∷ row 355 "CMRangingClassIDExtension" 4 200 Enc.ushort Render.ushort 0 0
    ∷ row 202 "L2VPNEncoding" 5 200 Enc.nothing Render.aggregate 0 0
    ∷ row 203 "VPNIdentifier" 1 202 Enc.hexstr Render.hexstr 4 255
    ∷ row 350 "NSIEncapsulation" 2 202 Enc.nothing Render.aggregate 0 0
    ∷ row 351 "ServiceMultiplexingValueOther" 1 350 Enc.lenzero Render.lenzero 0 0
    ∷ row 356 "NSIEncapsulationSingleQTag" 2 350 Enc.ushort Render.ushort 0 4096
    ∷ row 357 "NSIEncapsulationDualQTag" 3 350 Enc.dual_qtag Render.dual_qtag 0 0
    ∷ row 358 "ServiceMultiplexingValueMPLSPW" 4 350 Enc.nothing Render.aggregate 0 0
    ∷ row 359 "MPLSPseudowireID" 1 358 Enc.uint Render.uint 0 0
    ∷ row 360 "MPLSPeerIpAddress" 2 358 Enc.char_ip_ip6 Render.char_ip_ip6 0 0
    ∷ row 361 "MPLSPseudowireType" 3 358 Enc.uchar Render.uchar 0 0
    ∷ row 362 "MPLSBackupPseudowireID" 4 358 Enc.uint Render.uint 0 0
    ∷ row 363 "MPLSBackupPeerIpAddress" 5 358 Enc.char_ip_ip6 Render.char_ip_ip6 0 0
    ∷ row 384 "ServiceMultiplexingValueL2TPv3Peer" 5 350 Enc.char_ip_ip6 Render.char_ip_ip6 0 0
    ∷ row 364 "IEEE8021ahEncapsulation" 6 350 Enc.nothing Render.aggregate 0 0
    ∷ row 365 "ITCIEncapsulation" 1 364 Enc.hexstr Render.hexstr 4 4
    ∷ row 366 "BDAEncapsulation" 2 364 Enc.hexstr Render.hexstr 6 6
    ∷ row 367 "BTCIEncapsulation" 3 364 Enc.hexstr Render.hexstr 2 2
    ∷ row 368 "ITPIDEncapsulation" 4 364 Enc.hexstr Render.hexstr 2 2
    ∷ row 369 "IPCPEncapsulation" 5 364 Enc.hexstr Render.hexstr 1 1
    ∷ row 370 "IDEIEncapsulation" 6 364 Enc.hexstr Render.hexstr 1 1
    ∷ row 371 "IUCAEncapsulation" 7 364 Enc.hexstr Render.hexstr 1 1
    ∷ row 372 "ISIDEncapsulation" 8 364 Enc.hexstr Render.hexstr 3 3
    ∷ row 373 "BTPIDEncapsulation" 9 364 Enc.hexstr Render.hexstr 2 2
    ∷ row 374 "BPCPEncapsulation" 10 364 Enc.hexstr Render.hexstr 1 1
    ∷ row 375 "BDEIEncapsulation" 11 364 Enc.hexstr Render.hexstr 1 1
    ∷ row 376 "BVIDEncapsulation" 12 364 Enc.hexstr Render.hexstr 2 2
    ∷ row 377 "ServiceMultiplexingValueIEEE8021adSTPID" 8 350 Enc.hexstr Render.hexstr 2 2
    ∷ row 378 "eSAFEDHCPSnooping" 3 202 Enc.hexstr Render.hexstr 0 0
    ∷ row 1428 "CMInterfaceMaskCMIMSubtype" 4 202 Enc.hexstr Render.hexstr 0 0
    ∷ row 379 "AttachmentGroupID" 5 202 Enc.hexstr Render.hexstr 0 0
    ∷ row 380 "SourceAttachmentIndividualID" 6 202 Enc.hexstr Render.hexstr 0 0
    ∷ row 381 "TargetAttachmentIndividualID" 7 202 Enc.hexstr Render.hexstr 0 0
    ∷ row 382 "IngressUserPriority" 8 202 Enc.uchar Render.uchar 0 7
    ∷ row 383 "UserPriorityRange" 9 202 Enc.char_list Render.char_list 0 0
    ∷ row 385 "L2VPNSADescriptorSubtype" 10 202 Enc.hexstr Render.hexstr 14 14
    ∷ row 386 "PseudowireType" 12 202 Enc.uchar Render.uchar 4 5
    ∷ row 387 "L2VPNMode" 13 202 Enc.uchar Render.uchar 0 1
    ∷ row 388 "TPIDTranslation" 14 202 Enc.nothing Render.aggregate 0 0
    ∷ row 389 "UpstreamTPIDTranslation" 1 388 Enc.hexstr Render.hexstr 2 2
    ∷ row 390 "DownstreamTPIDTranslation" 2 388 Enc.hexstr Render.hexstr 2 2
    ∷ row 391 "UpstreamSTPIDTranslation" 3 388 Enc.hexstr Render.hexstr 2 2
    ∷ row 392 "DownstreamSTPIDTranslation" 4 388 Enc.hexstr Render.hexstr 2 2
    ∷ row 393 "UpstreamBTPIDTranslation" 5 388 Enc.hexstr Render.hexstr 2 2
    ∷ row 394 "DownstreamBTPIDTranslation" 6 388 Enc.hexstr Render.hexstr 2 2
    ∷ row 395 "UpstreamITPIDTranslation" 7 388 Enc.hexstr Render.hexstr 2 2
    ∷ row 396 "DownstreamITPIDTranslation" 8 388 Enc.hexstr Render.hexstr 2 2
    ∷ row 397 "L2CPProcessing" 15 202 Enc.nothing Render.aggregate 0 0
    ∷ row 398 "L2CPTunnelMode" 1 397 Enc.uchar Render.uchar 0 1
    ∷ row 399 "L2CPDMACAddress" 2 397 Enc.ether Render.ether 0 0
    ∷ row 400 "L2CPOverwrotingDMACAddress" 3 397 Enc.ether Render.ether 0 0
    ∷ row 401 "DACDisableEnableConfiguration" 16 202 Enc.uchar Render.uchar 0 1
    ∷ row 402 "PseudowireClass" 18 202 Enc.hexstr Render.hexstr 0 0
    ∷ row 403 "ServiceDelimiter" 19 202 Enc.nothing Render.aggregate 0 0
    ∷ row 404 "CVIDDelimiter" 1 403 Enc.hexstr Render.hexstr 2 2
    ∷ row 405 "SVIDDelimiter" 2 403 Enc.hexstr Render.hexstr 2 2
    ∷ row 406 "ISIDDelimiter" 3 403 Enc.hexstr Render.hexstr 3 3
    ∷ row 407 "BVIDDelimiter" 4 403 Enc.hexstr Render.hexstr 2 2
    ∷ row 408 "VirtualSwitchInstanceEncoding" 20 202 Enc.nothing Render.aggregate 0 0
    ∷ row 409 "VPLSClass" 1 408 Enc.hexstr Render.hexstr 0 0
    ∷ row 410 "ETreeRole" 2 408 Enc.uchar Render.uchar 0 1
    ∷ row 411 "ETreeRootVID" 3 408 Enc.hexstr Render.hexstr 2 2
    ∷ row 412 "ETreeLeafVID" 4 408 Enc.hexstr Render.hexstr 2 2
    ∷ row 413 "BGPAttribute" 21 202 Enc.nothing Render.aggregate 0 0
    ∷ row 414 "BGPVPNID" 1 413 Enc.uint Render.uint 0 0
    ∷ row 415 "RouteDistinguisher" 2 413 Enc.hexstr Render.hexstr 8 8
    ∷ row 416 "RouteTargetImport" 3 413 Enc.hexstr Render.hexstr 0 0
    ∷ row 417 "RouteTargetExport" 4 413 Enc.hexstr Render.hexstr 0 0
    ∷ row 418 "CEIDVEID" 5 413 Enc.ushort Render.ushort 0 0
    ∷ row 419 "PseudowireSignaling" 23 202 Enc.uchar Render.uchar 0 2
    ∷ row 420 "SOAMSubtype" 24 202 Enc.nothing Render.aggregate 0 0
    ∷ row 421 "MEPConfiguration" 1 420 Enc.nothing Render.aggregate 0 0
    ∷ row 422 "MDLevel" 1 421 Enc.uchar Render.uchar 0 7
    ∷ row 423 "MDName" 2 421 Enc.string Render.string 2 16
    ∷ row 424 "MAName" 3 421 Enc.string Render.string 2 28
    ∷ row 425 "MEPID" 4 421 Enc.ushort Render.ushort 1 8191
    ∷ row 426 "RemoteMEPConfiguration" 2 420 Enc.nothing Render.aggregate 0 0
    ∷ row 427 "RemoteMDLevel" 1 426 Enc.uchar Render.uchar 0 7
    ∷ row 428 "RemoteMDName" 2 426 Enc.string Render.string 2 16
    ∷ row 429 "RemoteMAName" 3 426 Enc.string Render.string 2 28
    ∷ row 430 "RemoteMEPID" 4 426 Enc.ushort Render.ushort 1 8191
    ∷ row 431 "FaultManagementConfiguration" 3 420 Enc.nothing Render.aggregate 0 0
    ∷ row 432 "ContinuityCheckMessages" 1 431 Enc.uchar Render.uchar 0 2
    ∷ row 433 "LoopbackFunction" 2 431 Enc.uchar Render.uchar 0 1
    ∷ row 434 "LinktraceFunction" 3 431 Enc.uchar Render.uchar 0 1
    ∷ row 435 "PerformanceManagementConfiguration" 4 420 Enc.nothing Render.aggregate 0 0
    ∷ row 436 "FrameDelayMeasurement" 1 435 Enc.nothing Render.aggregate 0 0
    ∷ row 437 "FrameDelayMeasurementEnable" 1 436 Enc.uchar Render.uchar 0 1
    ∷ row 438 "FrameDelayMeasurementOneWayTwoWay" 2 436 Enc.uchar Render.uchar 0 1
    ∷ row 439 "FrameDelayMeasurementTransmissionPeriodicity" 3 436 Enc.ushort Render.ushort 0 0
    ∷ row 440 "FrameLossMeasurement" 2 435 Enc.nothing Render.aggregate 0 0
    ∷ row 441 "FrameLossMeasurementEnable" 1 440 Enc.uchar Render.uchar 0 1
    ∷ row 442 "FrameLossMeasurementTransmissionPeriodicity" 2 440 Enc.uchar Render.uchar 0 0
    ∷ row 2010 "VPNSGAttribute" 22 202 Enc.string Render.string 1 16
    ∷ row 2011 "L2VPNNetworkTimingProfileReference" 25 202 Enc.ushort Render.ushort 0 65535
    ∷ row 443 "L2VPNDSID" 26 202 Enc.uint24 Render.uint24 1 1048575
    ∷ row 2012 "L2VPNMultipointForwardingMode" 27 202 Enc.uchar Render.uchar 0 1
    ∷ row 448 "VendorSpecificL2VPNSubtype" 43 202 Enc.nothing Render.aggregate 0 0
    ∷ row 449 "VendorIdentifier" 8 448 Enc.hexstr Render.hexstr 3 3
    ∷ row 444 "ExtendedCMTSMICConfigurationSetting" 6 200 Enc.nothing Render.aggregate 0 0
    ∷ row 445 "ExtendedCMTSMICHMACtype" 1 444 Enc.uchar Render.uchar 0 0
    ∷ row 446 "ExtendedCMTSMICBitmap" 2 444 Enc.hexstr Render.hexstr 0 0
    ∷ row 447 "ExplicitExtendedCMTSMICDigest" 3 444 Enc.hexstr Render.hexstr 0 0
    ∷ row 450 "SAVAuthorizationEncoding" 7 200 Enc.nothing Render.aggregate 0 0
    ∷ row 451 "SAVGroupName" 1 450 Enc.string Render.string 1 15
    ∷ row 452 "SAVStaticPrefixRule" 2 450 Enc.nothing Render.aggregate 0 0
    ∷ row 453 "SAVStaticPrefixAddress" 1 452 Enc.ip_ip6 Render.ip_ip6 0 0
    ∷ row 454 "SAVStaticPrefixLength" 2 452 Enc.uchar Render.uchar 0 0
    ∷ row 201 "VendorIdentifier" 8 200 Enc.hexstr Render.hexstr 3 3
    ∷ row 455 "CMAttributeMasks" 9 200 Enc.nothing Render.aggregate 0 0
    ∷ row 456 "CMDownstreamRequiredAttributeMask" 1 455 Enc.hexstr Render.hexstr 4 4
    ∷ row 457 "CMDownstreamForbiddenAttributeMask" 2 455 Enc.hexstr Render.hexstr 4 4
    ∷ row 458 "CMUpstreamRequiredAttributeMask" 3 455 Enc.hexstr Render.hexstr 4 4
    ∷ row 459 "CMUpstreamForbiddenAttributeMask" 4 455 Enc.hexstr Render.hexstr 4 4
    ∷ row 460 "IPMulticastJoinAuthorization" 10 200 Enc.nothing Render.aggregate 0 0
    ∷ row 461 "IPMulticastProfileName" 1 460 Enc.string Render.string 1 15
    ∷ row 462 "IPMulticastJoinAuthStaticSessionRule" 2 460 Enc.nothing Render.aggregate 0 0
    ∷ row 463 "MulticastRulePriority" 1 462 Enc.uchar Render.uchar 0 255
    ∷ row 464 "AuthorizationAction" 2 462 Enc.uchar Render.uchar 0 1
    ∷ row 465 "SourcePrefixAddress" 3 462 Enc.ip_ip6 Render.ip_ip6 0 0
    ∷ row 466 "SourcePrefixLength" 4 462 Enc.uchar Render.uchar 0 128
    ∷ row 467 "GroupPrefixAddress" 5 462 Enc.ip_ip6 Render.ip_ip6 0 0
    ∷ row 468 "GroupPrefixLength" 6 462 Enc.uchar Render.uchar 0 128
    ∷ row 469 "MaximumMulticastSessions" 3 460 Enc.ushort Render.ushort 0 0
    ∷ row 470 "ServiceTypeIdentifier" 11 200 Enc.string Render.string 1 16
    ∷ row 471 "DEMARCAutoConfiguration" 12 200 Enc.nothing Render.aggregate 0 0
    ∷ row 472 "DACDisableEnableConfig" 1 471 Enc.uchar Render.uchar 0 1
    ∷ row 473 "CMIMEncoding" 2 471 Enc.hexstr Render.hexstr 0 0
    ∷ row 474 "UpstreamServiceClassName" 3 471 Enc.strzero Render.strzero 2 16
    ∷ row 475 "DownstreamServiceClassName" 4 471 Enc.strzero Render.strzero 2 16
    ∷ row 54 "DsPacketClass" 23 0 Enc.nothing Render.aggregate 0 0
    ∷ row 55 "ClassifierRef" 1 54 Enc.uchar Render.uchar 1 255
    ∷ row 56 "ClassifierId" 2 54 Enc.ushort Render.ushort 1 65535
    ∷ row 57 "ServiceFlowRef" 3 54 Enc.ushort Render.ushort 1 65535
    ∷ row 58 "ServiceFlowId" 4 54 Enc.uint Render.uint 1 4294967295
    ∷ row 59 "RulePriority" 5 54 Enc.uchar Render.uchar 0 255
    ∷ []
